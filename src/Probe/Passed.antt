-- ===== src/Probe/Passed.antt =====
-- When a probe passes.
use portage.Base.{
  String, ◌≡◌, refl, ◌↔◌, ◌⊎◌, Bool, true, false, not, ◌||◌, Option, none, some, List, [], ◌∷◌,
  if◌then◌else◌, is_empty, arith, Fallible, ok, err,
}
use portage.Api.{WorkloadClass}
use portage.Classify.{Workload}
use portage.Restore.{ProbeResult}
use portage.Probe.{
  Spec, spec, by_class, default_spec, ExecResult, Place, is_one_of, judge_error, result,
  run_command, is_graph, run,
}

-- The engines that have a command.
abbrev pub has_probe : Workload → Bool
has_probe w =
    is_one_of ("postgres" ∷ "timescale" ∷ []) w.engine
    || is_one_of ("mysql" ∷ "mariadb" ∷ []) w.engine
    || is_one_of ("redis" ∷ "valkey" ∷ "keydb" ∷ "dragonfly" ∷ []) w.engine
    || is_one_of ("mongo" ∷ []) w.engine
    || is_one_of ("minio" ∷ []) w.engine

by_class-empty : (class : WorkloadClass) → is_empty (by_class class).command ≡ true
by_class-empty class = ground arith

pick_eq :
    (a b c d e : Bool) (class : WorkloadClass)
    → is_empty
        (if a
          then spec ("pg_isready" ∷ []) "pg_isready"
          else if b
          then spec ("mysqladmin" ∷ "ping" ∷ []) "mysqladmin ping"
          else if c
          then spec ("redis-cli" ∷ "ping" ∷ []) "PING"
          else if d
          then spec ("mongosh" ∷ "--eval" ∷ "db.hello()" ∷ []) "hello"
          else if e
          then spec ("mc" ∷ "ready" ∷ "local" ∷ []) "mc ready"
          else by_class class).command
      ≡ not (a || b || c || d || e)
pick_eq true b c d e class = refl
pick_eq false true c d e class = refl
pick_eq false false true d e class = refl
pick_eq false false false true e class = refl
pick_eq false false false false true class = refl
pick_eq false false false false false class = by_class-empty class

default_spec-empty : (w : Workload) → is_empty (default_spec w).command ≡ not (has_probe w)
unfolding default_spec
default_spec-empty w =
    pick_eq (is_one_of ("postgres" ∷ "timescale" ∷ []) w.engine)
      (is_one_of ("mysql" ∷ "mariadb" ∷ []) w.engine)
      (is_one_of ("redis" ∷ "valkey" ∷ "keydb" ∷ "dragonfly" ∷ []) w.engine)
      (is_one_of ("mongo" ∷ []) w.engine) (is_one_of ("minio" ∷ []) w.engine) w.class

-- A command ran in a ready pod without an error.
abbrev pub IsAnswered :
    Option (Place → List String → ExecResult) → Fallible Place → List String → Type 0
IsAnswered none place command = ⊥
IsAnswered (some exec) (err e) command = ⊥
IsAnswered (some exec) (ok place) command = (exec place command).error ≡ none

judge_error-ok :
    (s : Spec) (stderr : String) (e : Option String)
    → ((judge_error s stderr e).ok ≡ true) ↔ (e ≡ none)
judge_error-ok s stderr none = ground arith
judge_error-ok s stderr (some e) = ground arith

-- A probe by its three outcomes.
outcome_ok :
    (graph idle probed : Bool) (m n : String) (r : ProbeResult) (C : Type 0)
    → idle ≡ not probed
    → (r.ok ≡ true) ↔ C
    → ((if graph then result false m else if idle then result true n else r).ok ≡ true)
      ↔ ((graph ≡ false) × ((probed ≡ false) ⊎ ((probed ≡ true) × C)))
outcome_ok true idle probed m n r C h k = ground arith
outcome_ok false true true m n r C h k = cc
outcome_ok false true false m n r C h k = ground arith
outcome_ok false false true m n r C h k = ground (arith, k)
outcome_ok false false false m n r C h k = cc

run_command-ok :
    (s : Spec) (exec : Option (Place → List String → ExecResult)) (place : Fallible Place)
    → ((run_command s exec place).ok ≡ true) ↔ IsAnswered exec place s.command
run_command-ok s none place = ground arith
run_command-ok s (some exec) (err e) = ground arith
run_command-ok s (some exec) (ok place) =
    judge_error-ok s (exec place s.command).stderr (exec place s.command).error

-- A probe passes exactly if the workload is not the object graph and its engine has no command, or
-- the command of its engine ran without an error in a ready pod. Only ten engines have one: the
-- others, and volumes of no known engine, pass without a look at their data.
pub run-ok_iff :
    (exec : Option (Place → List String → ExecResult)) (place : Fallible Place) (w : Workload)
    → ((run exec place w).ok ≡ true) ↔ (
        (is_graph w.class ≡ false)
        × ((has_probe w ≡ false)
            ⊎ ((has_probe w ≡ true) × IsAnswered exec place (default_spec w).command)))
unfolding run
run-ok_iff exec place w =
    outcome_ok (is_graph w.class) (is_empty (default_spec w).command) (has_probe w) _
      (default_spec w).message (run_command (default_spec w) exec place) _ (default_spec-empty w)
      (run_command-ok (default_spec w) exec place)
