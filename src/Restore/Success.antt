-- ===== src/Restore/Success.antt =====
-- When a Restore Action may end in phase Succeeded.
use portage.Base.{◌≡◌, refl, ◌≢◌, false, some, none, List, arith, Option, Map, String}
use portage.Api.{
  WorkloadActionStatus, ActionStatus, ActionPhase, Time, or_pending, unset, pending, preflight,
  rehydrating, applying, waiting_ready, healing, attesting, succeeded,
}
use portage.Actionphase.{IsComplete}
use portage.Actionphase.Gate.{can_succeed_iff}
use portage.Restore.{Facts, Result}
use portage.Restore.Advance.{
  Preflight, artifact_ids, attest, settle, rehydrate, start, started, step, advance,
}

-- A success with what it rests on, and the record of it.
pub record IsProven (now : Time) (r : Result) : Type 0 where
  pub complete : IsComplete r.workloads
  pub recorded :
      r.attestation
      ≡ some (record {
        recorded_at = now;
        source = "controller";
        workloads = r.workloads;
        artifact_ids = artifact_ids r.workloads;
      })

attest-IsProven :
    (ws : List WorkloadActionStatus) (now : Time)
    → (attest ws now).phase ≡ succeeded
    → IsProven now (attest ws now)
unfolding attest
attest-IsProven ws now h = ground (arith, can_succeed_iff ws)

settle-IsProven :
    (ws : List WorkloadActionStatus) (now : Time)
    → (settle ws now).phase ≡ succeeded
    → IsProven now (settle ws now)
unfolding settle
settle-IsProven ws now h = ground (arith, can_succeed_iff ws)

rehydrate-IsProven :
    (facts : Facts) (ws : List WorkloadActionStatus)
    → (rehydrate facts ws).phase ≡ succeeded
    → IsProven facts.now (rehydrate facts ws)
unfolding rehydrate
rehydrate-IsProven facts ws h = ground (arith, can_succeed_iff ws)

start-ne-succeeded :
    (facts : Facts) (refusal : String) (p : Preflight)
    → facts.dry_run ≡ false
    → (start facts (refusal, p)).phase ≢ succeeded
unfolding start
start-ne-succeeded facts refusal p live = ground arith

or_pending-ne-succeeded : (phase : ActionPhase) → phase ≢ succeeded → or_pending phase ≢ succeeded
or_pending-ne-succeeded unset h = ground arith
or_pending-ne-succeeded _ h = h

module _ (status : ActionStatus) (facts : Facts) (ws : List WorkloadActionStatus) (r : Result)
    (told : Option (Map String)) (live : facts.dry_run ≡ false) (won : r.phase ≡ succeeded) where
  started-IsProven :
      (o : Option (String × Preflight)) → started facts o ≡ some (r, told) → IsProven facts.now r
  started-IsProven none e = cc
  started-IsProven (some (refusal, p)) e = ground (arith, start-ne-succeeded facts refusal p live)

  step-IsProven :
      (phase : ActionPhase)
      → phase ≢ succeeded
      → step phase status facts ws ≡ some (r, told)
      → IsProven facts.now r
  unfolding step
  step-IsProven succeeded fresh e = absurd (fresh refl)
  step-IsProven pending fresh e = started-IsProven _ e
  step-IsProven preflight fresh e = started-IsProven _ e
  step-IsProven rehydrating fresh e = ground (arith, rehydrate-IsProven facts ws)
  step-IsProven applying fresh e = ground (arith, rehydrate-IsProven facts ws)
  step-IsProven waiting_ready fresh e = ground (arith, settle-IsProven ws facts.now)
  step-IsProven healing fresh e = ground (arith, settle-IsProven ws facts.now)
  step-IsProven attesting fresh e = ground (arith, attest-IsProven ws facts.now)
  step-IsProven _ fresh e = ground arith

-- An Action that had not succeeded and is no dry run ends a reconcile in phase Succeeded only with
-- a complete list of workloads (each is skipped, or Ready and probed unless stateless, and not all
-- are skipped), and with an attestation of exactly these workloads, of the non-empty keys among
-- them, and of the time of the reconcile.
pub advance-IsProven :
    (status : ActionStatus) (facts : Facts) (r : Result) (told : Option (Map String))
    → status.phase ≢ succeeded
    → facts.dry_run ≡ false
    → advance status facts ≡ some (r, told)
    → r.phase ≡ succeeded
    → IsProven facts.now r
unfolding advance
advance-IsProven status facts r told fresh live e won =
    step-IsProven status facts _ r told live won (or_pending status.phase)
      (or_pending-ne-succeeded status.phase fresh) e
