-- ===== src/Restore/Forward.antt =====
-- The order of the phases of a Restore Action, and when it is tried again.
use portage.Base.{ℕ, ◌≤◌, ◌≡◌, true, false, some, none, List, arith, Option, Map, String}
use portage.Api.{
  WorkloadActionStatus, ActionStatus, ActionPhase, or_pending, is_final, unset, pending, preflight,
  quiescing, rehydrating, applying, waiting_ready, healing, catching_up, promoting, switching,
  attesting, succeeded, failed, rolled_back, other_phase, seconds,
}
use portage.Restore.{Facts, Result}
use portage.Restore.Advance.{Preflight, settle, attest, rehydrate, start, started, step, advance}

-- How far a phase is on the way of a restore. The phases of other Actions come first: `Advance`
-- sends them to Preflight.
abbrev pub rank : ActionPhase → ℕ
rank catching_up = 0
rank promoting = 0
rank switching = 0
rank (other_phase _) = 0
rank unset = 1
rank pending = 1
rank preflight = 1
rank quiescing = 2
rank rehydrating = 3
rank applying = 3
rank waiting_ready = 4
rank healing = 4
rank attesting = 4
rank succeeded = 5
rank failed = 5
rank rolled_back = 5

-- A result goes on from phase `phase`: it does not fall behind, ends exactly in the final phases,
-- and asks for another reconcile, at least a second later, exactly if it does not end.
pub record GoesOn (phase : ActionPhase) (r : Result) : Type 0 where
  pub forward : rank phase ≤ rank r.phase
  pub ends : r.terminal ≡ is_final r.phase
  pub ended : r.terminal ≡ true → r.requeue_after ≡ 0
  pub requeued : r.terminal ≡ false → seconds 1 ≤ r.requeue_after

module _ (facts : Facts) (ws : List WorkloadActionStatus) where
  attest-GoesOn : (phase : ActionPhase) → rank phase ≤ 4 → GoesOn phase (attest ws facts.now)
  unfolding attest
  attest-GoesOn phase h = ground arith

  settle-GoesOn : (phase : ActionPhase) → rank phase ≤ 4 → GoesOn phase (settle ws facts.now)
  unfolding settle
  settle-GoesOn phase h = ground arith

  rehydrate-GoesOn : (phase : ActionPhase) → rank phase ≤ 3 → GoesOn phase (rehydrate facts ws)
  unfolding rehydrate
  rehydrate-GoesOn phase h = ground arith

start-GoesOn :
    (facts : Facts) (phase : ActionPhase) (refusal : String) (p : Preflight)
    → rank phase ≤ 3
    → GoesOn phase (start facts (refusal, p))
unfolding start
start-GoesOn facts phase refusal p h = ground arith

module _ (status : ActionStatus) (facts : Facts) (ws : List WorkloadActionStatus) {r : Result}
    {told : Option (Map String)} where
  started-GoesOn :
      (phase : ActionPhase) (o : Option (String × Preflight))
      → rank phase ≤ 3
      → started facts o ≡ some (r, told)
      → GoesOn phase r
  started-GoesOn phase none h e = cc
  started-GoesOn phase (some (refusal, p)) h e =
      ground (arith, start-GoesOn facts phase refusal p h)

  step-GoesOn : (phase : ActionPhase) → step phase status facts ws ≡ some (r, told) → GoesOn phase r
  unfolding step
  step-GoesOn pending e = started-GoesOn pending _ (omega arith) e
  step-GoesOn preflight e = started-GoesOn preflight _ (omega arith) e
  step-GoesOn rehydrating e = ground (arith, rehydrate-GoesOn facts ws rehydrating)
  step-GoesOn applying e = ground (arith, rehydrate-GoesOn facts ws applying)
  step-GoesOn waiting_ready e = ground (arith, settle-GoesOn facts ws waiting_ready)
  step-GoesOn healing e = ground (arith, settle-GoesOn facts ws healing)
  step-GoesOn attesting e = ground (arith, attest-GoesOn facts ws attesting)
  step-GoesOn _ e = ground arith

rank-or_pending : (phase : ActionPhase) → rank phase ≤ rank (or_pending phase)
rank-or_pending unset = omega arith
rank-or_pending _ = omega arith

-- A reconcile never moves a Restore Action back in the order of the phases (Preflight, Quiescing,
-- Rehydrating, WaitingReady, the final phases), it ends exactly in phases Succeeded, Failed and
-- RolledBack, and any other result asks for another reconcile after at least a second.
pub advance-GoesOn :
    (status : ActionStatus) (facts : Facts) (r : Result) (told : Option (Map String))
    → advance status facts ≡ some (r, told)
    → GoesOn status.phase r
unfolding advance
advance-GoesOn status facts r told e =
    let g = step-GoesOn status facts _ (or_pending status.phase) e in
    record {
      forward = omega (arith, g, rank-or_pending status.phase);
      ends = g.ends;
      ended = g.ended;
      requeued = g.requeued;
    }
