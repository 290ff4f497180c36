-- ===== src/Backup.antt =====
-- pkg/backup: whether a backup is healthy (health.go), and the state machine of a Backup Action
-- (machine.go). Its result type has the fields of `restore.Result`.
pub mod Health
pub mod Machine
mod Tests
use portage.Base.{
  ℕ, String, ◌<>◌, Bool, true, false, not, Option, none, some, List, [], ◌∷◌, map, Map, lookup,
  index_from, is_empty, if◌then◌else◌,
}
use portage.Api.{
  WorkloadActionStatus, ActionStatus, ArtifactHealth, Time, is_stateless, succeeded, failed,
}
use portage.Classify.{Workload, Inventory, key, stateful}
use portage.Restore.{Result, final}

-- `byKey` of both files
abbrev pub by_key : List ArtifactHealth → Map ArtifactHealth
by_key = index_from (λ a. a.workload) []

-- `ok && a.Useful`
abbrev pub is_useful : Option ArtifactHealth → Bool
is_useful none = false
is_useful (some a) = a.useful

-- The loop of `Healthy`: the keys without a useful artifact.
unfoldable pub missing_from : Map ArtifactHealth → List Workload → List String
missing_from artifacts [] = []
missing_from artifacts (w ∷ ws) =
    let rest = missing_from artifacts ws in
    if is_useful (lookup (key w) artifacts) then rest else key w ∷ rest

-- `Healthy`
unfoldable pub healthy : Inventory → List ArtifactHealth → Bool × List String
unfolding missing_from stateful
healthy inv artifacts =
    let missing = missing_from (by_key artifacts) (stateful inv) in (is_empty missing, missing)

-- `FromArtifact`
unfoldable pub from_artifact : Workload → Bool → ℕ → String → String → ArtifactHealth
from_artifact w useful size message id = record {
  workload = key w;
  useful = useful;
  size_bytes = size;
  artifact_id = id;
  message = message;
}

pub record Facts : Type 0 where
  pub inventory : List Workload
  pub artifacts : List ArtifactHealth
  pub now : Time

-- The entry of a workload before its artifact is looked up; a backup starts nothing on dest.
abbrev fresh : Workload → WorkloadActionStatus
fresh w = record {
  name = w.name;
  key = key w;
  class = w.class;
  engine = w.engine;
  ready = true;
  probe = "";
  probe_ok = false;
  message = "";
  healed = [];
}

abbrev note_artifact : Option ArtifactHealth → WorkloadActionStatus → WorkloadActionStatus
note_artifact none st = st
note_artifact (some a) st = record st {
  probe_ok = a.useful;
  probe = a.message;
  message = a.message;
}

abbrev note_stateless : WorkloadActionStatus → WorkloadActionStatus
note_stateless st =
    if is_stateless st.class then record st { probe_ok = true; probe = "stateless" } else st

-- The body of the loop of `workloadsFrom`.
unfoldable pub workload_from : Map ArtifactHealth → Workload → WorkloadActionStatus
workload_from artifacts w = note_stateless (note_artifact (lookup (key w) artifacts) (fresh w))

unfoldable pub workloads_from : List Workload → List ArtifactHealth → List WorkloadActionStatus
unfolding workload_from
workloads_from inv artifacts = map (workload_from (by_key artifacts)) inv

abbrev first_missing : List String → String
first_missing [] = "backup not useful"
first_missing (k ∷ _) = "backup not useful: " <> k

-- `Advance`
unfoldable pub advance : ActionStatus → Facts → Result
unfolding workloads_from healthy
advance status facts =
    let ws = workloads_from facts.inventory facts.artifacts in
    let (ok, missing) =
      healthy (record { namespaces = []; workloads = facts.inventory }) facts.artifacts in
    if not ok
    then final failed (first_missing missing) ws none
    else final succeeded "all stateful artifacts useful" ws (
        some (record {
          recorded_at = facts.now;
          source = "controller";
          workloads = ws;
          artifact_ids = [];
        }))
