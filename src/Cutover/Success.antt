-- ===== src/Cutover/Success.antt =====
-- When a Cutover Action ends in phase Succeeded, and when in phase RolledBack.
use portage.Base.{◌≡◌, ◌≢◌, ◌↔◌, ◌⊎◌, true, false, some, none, List, [], ◌∷◌, All, arith}
use portage.Api.{
  WorkloadActionStatus, ActionStatus, ActionPhase, or_pending, unset, waiting_ready, healing,
  attesting, succeeded, rolled_back,
}
use portage.Actionphase.{IsRestored, IsComplete}
use portage.Actionphase.Gate.{can_succeed_iff}
use portage.Restore.{Result}
use portage.Cutover.{Facts, held_up, wait_ready, step, seed, advance}

pub held_up-none_iff : (ws : List WorkloadActionStatus) → (held_up ws ≡ none) ↔ All IsRestored ws
unfolding held_up
held_up-none_iff [] = ground arith
held_up-none_iff (w ∷ ws) = ground (arith, held_up-none_iff ws)

-- A success with what it rests on, and the record of it. Unlike a restore, it leaves no workload
-- out that was reported as skipped.
pub record IsAttested (facts : Facts) (r : Result) : Type 0 where
  pub each : All IsRestored r.workloads
  pub complete : IsComplete r.workloads
  pub recorded :
      r.attestation
      ≡ some (record {
        recorded_at = facts.now;
        source = "cutover";
        workloads = r.workloads;
        artifact_ids = [];
      })

module _ (facts : Facts) (ws : List WorkloadActionStatus) where
  wait_ready-IsAttested :
      (wait_ready (held_up ws) ws facts.now).phase ≡ succeeded
      → IsAttested facts (wait_ready (held_up ws) ws facts.now)
  wait_ready-IsAttested won = ground (arith, held_up-none_iff ws, can_succeed_iff ws)

  step-IsAttested :
      (phase : ActionPhase) (status : ActionStatus)
      → phase ≢ succeeded
      → facts.dry_run ≡ false
      → (step phase status facts ws).phase ≡ succeeded
      → IsAttested facts (step phase status facts ws)
  unfolding step
  step-IsAttested waiting_ready status fresh live won = wait_ready-IsAttested won
  step-IsAttested healing status fresh live won = wait_ready-IsAttested won
  step-IsAttested attesting status fresh live won = wait_ready-IsAttested won
  step-IsAttested _ status fresh live won = ground arith

or_pending-ne-succeeded : (phase : ActionPhase) → phase ≢ succeeded → or_pending phase ≢ succeeded
or_pending-ne-succeeded unset h = ground arith
or_pending-ne-succeeded _ h = h

-- A cutover that had not succeeded and is no dry run ends a reconcile in phase Succeeded only if
-- every workload is Ready and, unless stateless, probed (one reported as skipped too), not all are
-- reported as skipped, and the attestation records these workloads and the time.
pub advance-IsAttested :
    (status : ActionStatus) (facts : Facts)
    → status.phase ≢ succeeded
    → facts.dry_run ≡ false
    → (advance status facts).phase ≡ succeeded
    → IsAttested facts (advance status facts)
unfolding advance
advance-IsAttested status facts fresh live won = ground (
  arith,
  step-IsAttested facts (seed status.workloads facts) (or_pending status.phase) status,
  or_pending-ne-succeeded status.phase fresh,
)

step-eq-rolled_back_iff :
    (phase : ActionPhase) (status : ActionStatus) (facts : Facts) (ws : List WorkloadActionStatus)
    → facts.rollback ≡ false
    → ((step (or_pending phase) status facts ws).phase ≡ rolled_back) ↔ (phase ≡ rolled_back)
unfolding step
step-eq-rolled_back_iff unset status facts ws on = ground arith
step-eq-rolled_back_iff _ status facts ws on = ground arith

-- A reconcile leaves a cutover in phase RolledBack exactly if a rollback is asked for or it was
-- rolled back before; so a rollback is done from every phase, the final ones too.
pub advance-eq-rolled_back_iff :
    (status : ActionStatus) (facts : Facts)
    → ((advance status facts).phase ≡ rolled_back)
      ↔ ((facts.rollback ≡ true) ⊎ (status.phase ≡ rolled_back))
unfolding advance
advance-eq-rolled_back_iff status facts =
    ground (arith, step-eq-rolled_back_iff status.phase status facts (seed status.workloads facts))
