-- ===== src/Backup/Machine.antt =====
-- The state machine of a Backup Action.
use portage.Base.{
  ◌≡◌, refl, ◌↔◌, ◌⊎◌, true, some, none, List, [], ◌∷◌, All, Map, lookup, arith, map,
}
use portage.Api.{ActionStatus, ArtifactHealth, is_stateless, succeeded, failed}
use portage.Classify.{Workload, key}
use portage.Actionphase.{IsRestored}
use portage.Restore.{Result}
use portage.Backup.{by_key, is_useful, Facts, workload_from, advance}
use portage.Backup.Health.{missing_from-nil_iff}

workload_from-IsRestored_iff :
    (m : Map ArtifactHealth) (w : Workload)
    → IsRestored (workload_from m w)
      ↔ ((is_stateless w.class ≡ true) ⊎ (is_useful (lookup (key w) m) ≡ true))
unfolding workload_from
workload_from-IsRestored_iff m w = ground arith

All-IsRestored_iff :
    (m : Map ArtifactHealth) (ws : List Workload)
    → All IsRestored (map (workload_from m) ws)
      ↔ All (λ w. (is_stateless w.class ≡ true) ⊎ (is_useful (lookup (key w) m) ≡ true)) ws
All-IsRestored_iff m [] = ground arith
All-IsRestored_iff m (w ∷ ws) =
    ground (arith, workload_from-IsRestored_iff m w, All-IsRestored_iff m ws)

workloads_from-keys :
    (m : Map ArtifactHealth) (ws : List Workload)
    → map (λ st. st.key) (map (workload_from m) ws) ≡ map key ws
unfolding workload_from
workloads_from-keys m [] = refl
workloads_from-keys m (w ∷ ws) = ground (arith, workloads_from-keys m ws)

-- One reconcile of a Backup Action decides it: either way it ends.
pub record IsJudged (facts : Facts) (r : Result) : Type 0 where
  pub same_keys : map (λ st. st.key) r.workloads ≡ map key facts.inventory
  pub ends : r.terminal ≡ true
  pub won : (r.phase ≡ succeeded) ↔ All IsRestored r.workloads
  pub lost : (r.phase ≡ succeeded) ⊎ ((r.phase ≡ failed) × (r.attestation ≡ none))
  pub recorded :
      r.phase ≡ succeeded
      → r.attestation
        ≡ some (record {
          recorded_at = facts.now;
          source = "controller";
          workloads = r.workloads;
          artifact_ids = [];
        })

-- A Backup Action ends in one reconcile, in phase Succeeded exactly if every workload of its result
-- is Ready and, unless stateless, has ProbeOK, else in phase Failed with no attestation. The
-- workloads of the result are those of the inventory, and a success records them.
pub advance-IsJudged :
    (status : ActionStatus) (facts : Facts) → IsJudged facts (advance status facts)
unfolding advance
advance-IsJudged status facts = ground (
  arith,
  workloads_from-keys (by_key facts.artifacts) facts.inventory,
  All-IsRestored_iff (by_key facts.artifacts) facts.inventory,
  missing_from-nil_iff (by_key facts.artifacts) facts.inventory,
)
