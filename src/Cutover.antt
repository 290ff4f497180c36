-- ===== src/Cutover.antt =====
-- pkg/cutover/machine.go: the state machine of a Cutover Action, a planned failover. `advance` is
-- one reconcile; the replica is assumed to run already.
pub mod Order
pub mod Live
pub mod Success
pub mod Progress
mod Tests
use portage.Base.{
  String, ◌<>◌, Bool, true, false, not, ◌&&◌, ◌||◌, Option, none, some, List, [], ◌∷◌, map, Map,
  get, lookup, index_from, if◌then◌else◌,
}
use portage.Api.{
  WorkloadActionStatus, no_status, ActionStatus, ActionPhase, Time, seconds, is_stateless,
  or_pending, unset, pending, preflight, quiescing, catching_up, promoting, switching,
  waiting_ready, healing, attesting, succeeded, failed, rolled_back,
}
use portage.Classify.{Workload}
use portage.Classify
use portage.Actionphase.{can_succeed}
use portage.Restore.{ProbeResult, Result, again, final}

pub record Facts : Type 0 where
  pub inventory : List Workload
  pub frozen : Bool
  pub lag_zero : Bool
  pub promoted : Bool
  pub switched : Bool
  pub rolled : Bool
  pub ready : Option (Map Bool)
  pub probes : Option (Map ProbeResult)
  pub dry_run : Bool
  pub rollback : Bool
  pub now : Time

abbrev take_ready : Option (Map Bool) → String → WorkloadActionStatus → WorkloadActionStatus
take_ready none k st = st
take_ready (some ready) k st = record st { ready = get false k ready }

abbrev take_probe : Option ProbeResult → WorkloadActionStatus → WorkloadActionStatus
take_probe none st = st
take_probe (some p) st = record st { probe = p.message; probe_ok = p.ok }

abbrev take_probes : Option (Map ProbeResult) → String → WorkloadActionStatus → WorkloadActionStatus
take_probes none k st = st
take_probes (some probes) k st = take_probe (lookup k probes) st

abbrev take_stateless : WorkloadActionStatus → WorkloadActionStatus
take_stateless st = if is_stateless st.class && st.ready then record st { probe_ok = true } else st

-- The old entry of a workload, or the zero value, with the identity of the inventory's.
abbrev identified : Map WorkloadActionStatus → Workload → WorkloadActionStatus
identified by_key w = record (get no_status (Classify.key w) by_key) {
  name = w.name;
  key = Classify.key w;
  class = w.class;
  engine = w.engine;
}

-- The body of the loop of `seed`.
unfoldable pub seed_one : Facts → Map WorkloadActionStatus → Workload → WorkloadActionStatus
seed_one facts by_key w = take_stateless (
    take_probes facts.probes (Classify.key w)
      (take_ready facts.ready (Classify.key w) (identified by_key w)))

seed_list : Facts → List WorkloadActionStatus → List Workload → List WorkloadActionStatus
unfolding seed_one
seed_list facts existing [] = existing
seed_list facts existing (w ∷ ws) =
    map (seed_one facts (index_from (λ st. st.key) [] existing)) (w ∷ ws)

unfoldable pub seed : List WorkloadActionStatus → Facts → List WorkloadActionStatus
unfolding seed_list
seed existing facts = seed_list facts existing facts.inventory

-- The loop of phases WaitingReady, Healing and Attesting: why the first workload that is not Ready
-- or not probed holds the cutover up, skipped or not.
unfoldable pub held_up : List WorkloadActionStatus → Option String
held_up [] = none
held_up (w ∷ ws) =
    if not w.ready
    then some (w.key <> " is not Ready")
    else if not (is_stateless w.class) && not w.probe_ok
    then some (w.key <> " class probe has not passed")
    else held_up ws

abbrev attest : Bool × String → List WorkloadActionStatus → Time → Result
attest (false, reason) ws now = again waiting_ready reason ws (seconds 5)
attest (true, _) ws now =
    final succeeded "cutover complete; dest Ready and probed" ws
      (some (record { recorded_at = now; source = "cutover"; workloads = ws; artifact_ids = [] }))

abbrev wait_ready : Option String → List WorkloadActionStatus → Time → Result
wait_ready (some reason) ws now = again waiting_ready reason ws (seconds 5)
wait_ready none ws now = attest (can_succeed ws) ws now

-- Phases Pending and Preflight.
unfoldable pub begin : Facts → List WorkloadActionStatus → Result
begin facts ws =
    if facts.rollback
    then final rolled_back "rollback requested" ws none
    else if facts.dry_run
    then final succeeded "dry-run cutover preflight" ws none
    else again quiescing "freezing source writes" ws (seconds 1)

-- The `switch` of `Advance`; the last clause is `default`.
unfoldable pub step : ActionPhase → ActionStatus → Facts → List WorkloadActionStatus → Result
unfolding held_up begin
step succeeded status facts ws = final succeeded status.message ws status.attestation
step failed status facts ws = final failed status.message ws status.attestation
step rolled_back status facts ws = final rolled_back status.message ws status.attestation
step pending status facts ws = begin facts ws
step preflight status facts ws = begin facts ws
step quiescing status facts ws =
    if not facts.frozen
    then again quiescing "waiting for source scale-to-zero" ws (seconds 3)
    else again catching_up "source frozen; catching up replica" ws (seconds 1)
step catching_up status facts ws =
    if not facts.lag_zero
    then again catching_up "waiting for replica lag=0" ws (seconds 3)
    else again promoting "lag=0; promoting dest" ws (seconds 1)
step promoting status facts ws =
    if not facts.promoted
    then again promoting "promoting dest primary" ws (seconds 3)
    else again switching "promoted; switching traffic" ws (seconds 1)
step switching status facts ws =
    if not facts.switched
    then again switching "waiting for traffic hook" ws (seconds 2)
    else again waiting_ready "traffic switched; waiting for dest Ready + probe" ws (seconds 2)
step waiting_ready status facts ws = wait_ready (held_up ws) ws facts.now
step healing status facts ws = wait_ready (held_up ws) ws facts.now
step attesting status facts ws = wait_ready (held_up ws) ws facts.now
step _ status facts ws = again preflight "starting cutover" ws (seconds 1)

-- `phase != ActionPhaseRolledBack`
abbrev pub is_rolled_back : ActionPhase → Bool
is_rolled_back rolled_back = true
is_rolled_back _ = false

-- `Advance`
unfoldable pub advance : ActionStatus → Facts → Result
unfolding seed step
advance status facts =
    let phase = or_pending status.phase in
    let ws = seed status.workloads facts in
    if facts.rollback && not (is_rolled_back phase)
    then final rolled_back "source unfrozen; traffic rolled back" ws none
    else step phase status facts ws
