-- ===== src/Restore.antt =====
-- pkg/restore/machine.go: what a Restore Action observes, its result, and how the observations are
-- written into the status of each workload.
pub mod Advance
pub mod Success
pub mod Forward
pub mod Refusal
mod Tests
use portage.Base.{
  String, ◌==◌, Bool, true, false, ◌&&◌, Option, none, some, List, [], ◌∷◌, map, Map, get, lookup,
  index_from, if◌then◌else◌, is_empty,
}
use portage.Api.{
  WorkloadActionStatus, no_status, ActionPhase, Attestation, Time, Duration, is_stateless,
}
use portage.Classify.{Workload}
use portage.Classify

-- `movers.ProbeResult`
pub record ProbeResult : Type 0 where
  pub ok : Bool
  pub message : String

-- A map that the code compares with nil, or writes to, is an `Option`: `none` is the nil map.
pub record Facts : Type 0 where
  pub inventory : List Workload
  pub useful : Map Bool
  pub useful_message : Option (Map String)
  pub rehydrated : Map Bool
  pub ready : Option (Map Bool)
  pub probes : Option (Map ProbeResult)
  pub healed : Option (Map (List String))
  pub dry_run : Bool
  pub now : Time

pub record Result : Type 0 where
  pub phase : ActionPhase
  pub message : String
  pub workloads : List WorkloadActionStatus
  pub attestation : Option Attestation
  pub requeue_after : Duration
  pub terminal : Bool

-- A result that is tried again after a delay, and one that is not.
abbrev pub again : ActionPhase → String → List WorkloadActionStatus → Duration → Result
again phase message ws delay = record {
  phase = phase;
  message = message;
  workloads = ws;
  attestation = none;
  requeue_after = delay;
  terminal = false;
}

abbrev pub final : ActionPhase → String → List WorkloadActionStatus → Option Attestation → Result
final phase message ws attestation = record {
  phase = phase;
  message = message;
  workloads = ws;
  attestation = attestation;
  requeue_after = 0;
  terminal = true;
}

-- The body of the loop of `seedWorkloads`: the old entry with the identity of the inventory's.
unfoldable pub seed_one : Map WorkloadActionStatus → Workload → WorkloadActionStatus
seed_one by_key w = record (get no_status (Classify.key w) by_key) {
  name = w.name;
  key = Classify.key w;
  class = w.class;
  engine = w.engine;
}

unfoldable pub seed_workloads :
    List WorkloadActionStatus → List Workload → List WorkloadActionStatus
unfolding seed_one
seed_workloads existing [] = existing
seed_workloads existing (w ∷ ws) = map (seed_one (index_from (λ s. s.key) [] existing)) (w ∷ ws)

unfoldable pub note_ready : Option (Map Bool) → WorkloadActionStatus → WorkloadActionStatus
note_ready none w = w
note_ready (some ready) w = record w { ready = get false w.key ready }

abbrev take_probe : Option ProbeResult → WorkloadActionStatus → WorkloadActionStatus
take_probe none w = w
take_probe (some p) w = record w { probe = p.message; probe_ok = p.ok }

unfoldable pub note_probe : Option (Map ProbeResult) → WorkloadActionStatus → WorkloadActionStatus
note_probe none w = w
note_probe (some probes) w = take_probe (lookup w.key probes) w

unfoldable pub note_healed :
    Option (Map (List String)) → WorkloadActionStatus → WorkloadActionStatus
note_healed none w = w
note_healed (some healed) w =
    let names = get [] w.key healed in if is_empty names then w else record w { healed = names }

unfoldable pub note_useful : Option (Map String) → WorkloadActionStatus → WorkloadActionStatus
note_useful none w = w
note_useful (some messages) w =
    let message = get "" w.key messages in
    if message == "" then w else record w { message = message }

unfoldable pub note_stateless : WorkloadActionStatus → WorkloadActionStatus
note_stateless w =
    if is_stateless w.class && w.ready
    then record w { probe_ok = true; probe = if w.probe == "" then "k8s-ready" else w.probe }
    else w

-- The body of the loop of `applyFacts`.
unfoldable pub apply_one : Facts → WorkloadActionStatus → WorkloadActionStatus
unfolding note_ready note_probe note_healed note_useful note_stateless
apply_one facts w = note_stateless (
    note_useful facts.useful_message
      (note_healed facts.healed (note_probe facts.probes (note_ready facts.ready w))))

unfoldable pub apply_facts : Facts → List WorkloadActionStatus → List WorkloadActionStatus
unfolding apply_one
apply_facts facts ws = map (apply_one facts) ws
