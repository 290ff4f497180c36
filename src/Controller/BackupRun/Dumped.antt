-- ===== src/Controller/BackupRun/Dumped.antt =====
-- What the backup of a database with a dump stands on.
use mathlib.Core.Path.{subst}
use portage.Base.{
  ℕ, String, ◌≡◌, sym, ◌↔◌, ◌⊎◌, inl, inr, Bool, true, false, arith, Fallible, ok, err, ◌==◌,
  i64_le, Bool-cases,
}
use portage.Api.{WorkloadClass, sql_logical, kv_logical}
use portage.Classify.{Workload}
use portage.Movers.{Registry}
use portage.Usefulness.{Input, looks_like_dump, for_workload, total, min_logical_bytes}
use portage.Usefulness.Verdict.{evaluate_iff, HoldsData, HasDump, HasNoDump}
use portage.Backup.{from_artifact}
use portage.Controller.Failover.{Overrides, mover_override, backs_up}
use portage.Controller.Frozen.{is_object_graph}
use portage.Controller.BackupRun.{
  Answers, has_dump_command, of_dump, input_of, of_measured, artifact_of,
}

-- A SQL or KV database.
abbrev pub IsLogical : WorkloadClass → Type 0
IsLogical class = (class ≡ sql_logical) ⊎ (class ≡ kv_logical)

-- The dump was taken and has 64 KiB.
abbrev pub IsDumped : Fallible (String × ℕ × Bool) → Type 0
IsDumped (err e) = ⊥
IsDumped (ok (id, n, useful)) = i64_le min_logical_bytes n ≡ true

-- What `HoldsData` asks of both classes.
abbrev HoldsDump : Input → Type 0
HoldsDump input =
    HasDump input ⊎ (HasNoDump input × (i64_le min_logical_bytes (total input) ≡ true))

input_of-HoldsDump_iff :
    (w : Workload) (snapshot : Bool × String) (n : ℕ) (id : String)
    → HoldsDump (input_of w snapshot n id) ↔ (i64_le min_logical_bytes n ≡ true)
unfolding looks_like_dump total
input_of-HoldsDump_iff w snapshot n id = elim (Bool-cases (id == "")) [
  | inl blank ↦ rw blank (ground arith)
  | inr given ↦ rw given (ground arith)
]

by_class-logical :
    (class : WorkloadClass) (input : Input)
    → IsLogical class
    → HoldsData class input ↔ HoldsDump input
by_class-logical class input (inl sql) =
    subst (λ c. HoldsData c input ↔ HoldsDump input) (sym sql) (λ h. h, λ h. h)
by_class-logical class input (inr kv) =
    subst (λ c. HoldsData c input ↔ HoldsDump input) (sym kv) (λ h. h, λ h. h)

sized_iff :
    (w : Workload) (snapshot : Bool × String) (n : ℕ) (id : String)
    → IsLogical w.class
    → ((for_workload w (input_of w snapshot n id)).useful ≡ true)
      ↔ (i64_le min_logical_bytes n ≡ true)
unfolding for_workload
sized_iff w snapshot n id logical = ground (
  arith,
  evaluate_iff (input_of w snapshot n id),
  by_class-logical w.class (input_of w snapshot n id) logical,
  input_of-HoldsDump_iff w snapshot n id,
)

of_dump_iff :
    (w : Workload) (snapshot : Bool × String) (captured : Fallible (String × ℕ × Bool))
    → IsLogical w.class
    → ((of_measured w snapshot (of_dump captured)).useful ≡ true) ↔ IsDumped captured
unfolding from_artifact
of_dump_iff w snapshot (err e) logical = ground arith
of_dump_iff w snapshot (ok (id, n, useful)) logical = sized_iff w snapshot n id logical

-- The artifact of a SQL or KV database whose engine has a dump command, and for which the Policy
-- names no mover, is useful exactly if its dump was taken and has at least 64 KiB: neither a
-- snapshot nor the size of its data directory counts.
pub artifact_of_iff :
    (movers : Registry) (overrides : Overrides) (a : Answers) (w : Workload)
    → is_object_graph w ≡ false
    → (mover_override overrides w backs_up == "") ≡ true
    → has_dump_command w.engine ≡ true
    → IsLogical w.class
    → ((artifact_of movers overrides a w).useful ≡ true) ↔ IsDumped (a.capture w)
unfolding artifact_of
artifact_of_iff movers overrides a w plain unnamed dumped logical =
    rw (plain, unnamed, dumped) (of_dump_iff w (a.latest_ready w) (a.capture w) logical)
