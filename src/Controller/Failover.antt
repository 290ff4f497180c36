-- ===== src/Controller/Failover.antt =====
-- internal/controller/action_controller.go: `runCutover`, which gathers what the cutover machine reads
-- and calls the clusters by the phase that the Action is in.
pub mod Guarded
pub mod Flags
pub mod Through
mod Tests
use portage.Base.{
  ℕ, String, ◌==◌, Bool, true, false, not, ◌&&◌, ◌||◌, Option, none, some, List, [], ◌∷◌, ◌++◌, map,
  if◌then◌else◌, Map, insert, get, Fallible, ok, err, i64_lt,
}
use portage.Api.{
  ActionPhase, ActionStatus, WorkloadClass, class_text, Time, unset, pending, preflight, quiescing,
  promoting, switching, waiting_ready,
}
use portage.Classify.{Workload, Inventory, key, stateful}
use portage.Scale.{Scaled, original_replicas}
use portage.Movers.{Mover, Capability, Registry, Pick, select}
use portage.Restore.{ProbeResult, Result}
use portage.Controller.Frozen.{is_object_graph, frozen}
use portage.Cutover

-- `spec.moverOverrides` and the mover of the operation, of the Policy.
pub record Overrides : Type 0 where
  pub by_class : Map String
  pub backup : String
  pub restore : String
  pub replicate : String

-- The operations that have a mover of their own.
pub data Operation : Type 0 where
  backs_up restores replicates : Operation

abbrev own_mover : Overrides → Operation → String
own_mover o backs_up = o.backup
own_mover o restores = o.restore
own_mover o replicates = o.replicate

-- `moverOverride`
unfoldable pub mover_override : Overrides → Workload → Operation → String
unfolding get
mover_override o w op =
    let n = get "" (class_text w.class) o.by_class in if not (n == "") then n else own_mover o op

-- What the clusters answer in one reconcile. A `Bool` of a call says that it met no error; `exec` that
-- the destination has an executor. `graph` is the sync and attestation of the object graph,
-- `lag_seconds` the mover's `LagSeconds` (whether it is known, and an int64), `lag_zero` VolSync's.
pub record Answers : Type 0 where
  pub graph : Fallible (Bool × String)
  pub lag_seconds : Workload → Fallible (Bool × ℕ)
  pub lag_zero : Workload → Fallible Bool
  pub promote : Workload → Bool
  pub pg_promote : Workload → Bool
  pub ready : Workload → Fallible Bool
  pub exec : Bool
  pub probe : Workload → ProbeResult
  pub source : Workload → Fallible Scaled
  pub stateful_set : Workload → Fallible Scaled
  pub switch : Bool
  pub atoi : String → Option ℕ
  pub now : Time

-- What a reconcile asks of the clusters, by the workload's key.
pub data Effect : Type 0 where
  scales_source : String → ℕ → Effect
  scales_dest : String → ℕ → Effect
  promotes : String → Effect
  pg_promotes : String → Effect
  switches : Effect
  rolls_back : Effect

-- The maps and flags of the loop, and the calls so far.
pub record Gathered : Type 0 where
  pub ready : Map Bool
  pub probes : Map ProbeResult
  pub lag_zero : Bool
  pub promoted : Bool
  pub effects : List Effect

-- Phases "", Pending and Preflight.
abbrev pub is_early : ActionPhase → Bool
is_early unset = true
is_early pending = true
is_early preflight = true
is_early _ = false

abbrev pub is_freezing : ActionPhase → Bool
is_freezing quiescing = true
is_freezing phase = is_early phase

abbrev pub is_quiescing : ActionPhase → Bool
is_quiescing quiescing = true
is_quiescing _ = false

abbrev pub is_promoting : ActionPhase → Bool
is_promoting promoting = true
is_promoting _ = false

abbrev pub is_switching : ActionPhase → Bool
is_switching switching = true
is_switching _ = false

abbrev pub starts_dest : ActionPhase → Bool
starts_dest waiting_ready = true
starts_dest phase = is_switching phase

abbrev pub note_graph : String → Fallible (Bool × String) → Gathered → Gathered
note_graph k (err e) g = record g {
  ready = insert k false g.ready;
  probes = insert k (record { ok = false; message = e }) g.probes;
}
note_graph k (ok (good, msg)) g = record g {
  ready = insert k good g.ready;
  probes = insert k (record { ok = good; message = msg }) g.probes;
}

abbrev pub by_volsync : Fallible Bool → Bool
by_volsync (ok zero) = zero
by_volsync (err e) = true

-- The part of the loop that reads the lag: `false` where it clears `lagZero`.
abbrev pub lag_fine : Fallible (Bool × ℕ) → Fallible Bool → Bool
lag_fine (ok (true, n)) volsync = not (i64_lt 0 n)
lag_fine (ok (false, n)) volsync = by_volsync volsync
lag_fine (err e) volsync = by_volsync volsync

-- `m != nil && cap.Replicate`; with an error the movers' `Discover` gives no capability.
abbrev pub can_replicate : Pick → Bool
can_replicate (err e) = false
can_replicate (ok none) = false
can_replicate (ok (some (m, capability))) = capability.replicate

abbrev pub is_postgres : Workload → Bool
is_postgres w = w.engine == "postgres" || w.engine == "timescale"

module _ (movers : Registry) (overrides : Overrides) (a : Answers) where
  -- The call of phase Promoting, and whether it met no error.
  unfoldable pub promotion : Workload → Effect × Bool
  unfolding mover_override select
  promotion w =
      if can_replicate (select w (mover_override overrides w replicates) movers)
      then (promotes (key w), a.promote w)
      else if is_postgres w
      then (pg_promotes (key w), a.pg_promote w)
      else (scales_dest (key w) 1, true)

  abbrev pub or_false : Fallible Bool → Bool
  or_false (ok b) = b
  or_false (err e) = false

  abbrev pub effects_of : ActionPhase → Workload → List Effect
  effects_of phase w =
      (if is_freezing phase then scales_source (key w) 0 ∷ [] else [])
      ++ (if is_promoting phase then (promotion w).0 ∷ [] else [])
      ++ (if starts_dest phase then scales_dest (key w) 1 ∷ [] else [])

  -- The body of the loop, of a workload that is not the object graph.
  abbrev pub gather_workload : ActionPhase → Workload → Gathered → Gathered
  gather_workload phase w g =
      let ready = or_false (a.ready w) in
      record {
        ready = insert (key w) ready g.ready;
        probes = if ready && a.exec then insert (key w) (a.probe w) g.probes else g.probes;
        lag_zero = g.lag_zero && lag_fine (a.lag_seconds w) (a.lag_zero w);
        promoted = g.promoted && (if is_promoting phase then (promotion w).1 else true);
        effects = g.effects ++ effects_of phase w;
      }

  unfoldable pub gather_one : ActionPhase → Workload → Gathered → Gathered
  unfolding is_object_graph insert promotion
  gather_one phase w g =
      if is_object_graph w then note_graph (key w) a.graph g else gather_workload phase w g

  unfoldable pub gather_from : ActionPhase → List Workload → Gathered → Gathered
  unfolding gather_one
  gather_from phase [] g = g
  gather_from phase (w ∷ ws) g = gather_from phase ws (gather_one phase w g)

  unfoldable pub gather : ActionPhase → Inventory → Gathered
  unfolding gather_from stateful
  gather phase inv =
      gather_from phase (stateful inv)
        (record { ready = []; probes = []; lag_zero = true; promoted = true; effects = [] })

  -- The count from before the freeze, of a workload whose StatefulSet can be read; else one.
  abbrev replicas_before : Fallible Scaled → ℕ
  replicas_before (err e) = 1
  replicas_before (ok o) = original_replicas a.atoi o.annotations

  unfoldable pub roll_back : List Workload → List Effect
  unfolding is_object_graph original_replicas
  roll_back [] = []
  roll_back (w ∷ ws) =
      let rest = roll_back ws in
      if is_object_graph w
      then rest
      else scales_source (key w) (replicas_before (a.stateful_set w)) ∷ rest

  -- The facts that the machine is given.
  unfoldable pub facts_of : ActionPhase → Bool → Bool → Inventory → Cutover.Facts
  unfolding gather frozen
  facts_of phase dry_run rollback inv =
      let g = gather phase inv in
      record {
        inventory = inv.workloads;
        frozen = not (is_early phase) && (if is_quiescing phase then frozen a.source inv else true);
        lag_zero = not (is_early phase) && g.lag_zero;
        promoted = not (is_early phase) && g.promoted;
        switched = is_switching phase && a.switch;
        rolled = rollback;
        ready = some g.ready;
        probes = some g.probes;
        dry_run = dry_run;
        rollback = rollback;
        now = a.now;
      }

  -- `runCutover`: the result of the machine, and what was asked of the clusters, in order.
  unfoldable pub run_cutover : ActionStatus → Bool → Bool → Inventory → Result × List Effect
  unfolding facts_of roll_back gather
  run_cutover status dry_run rollback inv = (
    Cutover.advance status (facts_of status.phase dry_run rollback inv),
    (gather status.phase inv).effects
        ++ (if is_switching status.phase then switches ∷ [] else [])
        ++ (if rollback then rolls_back ∷ roll_back (stateful inv) else []),
  )
