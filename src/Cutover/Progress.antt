-- ===== src/Cutover/Progress.antt =====
-- A cutover goes through, if the clusters let it.
use portage.Base.{
  if◌then◌else◌, ◌&&◌, not, ℕ, zero, suc, ◌≡◌, refl, true, false, Bool, Option, List, ◌∷◌, All,
  arith, String,
}
use portage.Api.{
  ActionStatus, ActionPhase, WorkloadActionStatus, or_pending, unset, pending, preflight, quiescing,
  catching_up, promoting, switching, waiting_ready, healing, attesting, succeeded, failed,
  rolled_back,
}
use portage.Classify.{Workload}
use portage.Restore.{Result}
use portage.Controller.Status.{write_back}
use portage.Cutover.{is_rolled_back, Facts, begin, step, seed, advance}
use portage.Cutover.Live.{
  IsSeen, IsLive, IsWanted, IsDone, wait_ready_of_IsDone, seed-AreWanted, seed-IsDone,
}

-- Every phase takes the workloads as they were seen.
step-workloads :
    (phase : ActionPhase) (status : ActionStatus) (f : Facts) (ws : List WorkloadActionStatus)
    → (step phase status f ws).workloads ≡ ws
unfolding step
step-workloads waiting_ready status f ws = ground arith
step-workloads healing status f ws = ground arith
step-workloads attesting status f ws = ground arith
step-workloads _ status f ws = ground arith

advance-workloads :
    (status : ActionStatus) (f : Facts) → (advance status f).workloads ≡ seed status.workloads f
unfolding advance
advance-workloads status f =
    ground (arith, step-workloads (or_pending status.phase) status f (seed status.workloads f))

-- The phase after a reconcile that finds every gate open.
abbrev next : ActionPhase → ActionPhase
next unset = quiescing
next pending = quiescing
next preflight = quiescing
next quiescing = catching_up
next catching_up = promoting
next promoting = switching
next switching = waiting_ready
next waiting_ready = succeeded
next healing = succeeded
next attesting = succeeded
next succeeded = succeeded
next failed = failed
next rolled_back = rolled_back
next _ = preflight

-- How many such reconciles a success takes.
abbrev pub steps_left : ActionPhase → ℕ
steps_left unset = 6
steps_left pending = 6
steps_left preflight = 6
steps_left quiescing = 5
steps_left catching_up = 4
steps_left promoting = 3
steps_left switching = 2
steps_left waiting_ready = 1
steps_left healing = 1
steps_left attesting = 1
steps_left succeeded = 0
steps_left failed = 0
steps_left rolled_back = 0
steps_left _ = 7

abbrev pub is_lost : ActionPhase → Bool
is_lost failed = true
is_lost rolled_back = true
is_lost _ = false

next-steps_left :
    (phase : ActionPhase) (n : ℕ)
    → is_lost phase ≡ false
    → steps_left phase ≡ suc n
    → (steps_left (next phase) ≡ n) × (is_lost (next phase) ≡ false)
next-steps_left unset n l e = ground arith
next-steps_left _ n l e = ground arith

steps_left-zero :
    (phase : ActionPhase) → is_lost phase ≡ false → steps_left phase ≡ 0 → phase ≡ succeeded
steps_left-zero succeeded l e = refl
steps_left-zero _ l e = ground arith

-- The phases that end when every workload is Ready and probed.
abbrev pub is_late : ActionPhase → Bool
is_late waiting_ready = true
is_late healing = true
is_late attesting = true
is_late _ = false

-- The observations of a reconcile, by the phase that it finds the Action in. Each phase finds its own
-- gate open.
module _ {w : Workload} {ws : List Workload} (facts : ActionPhase → Facts)
    (seen : (phase : ActionPhase) → IsSeen w ws (facts phase))
    (frozen : (facts quiescing).frozen ≡ true) (lag_zero : (facts catching_up).lag_zero ≡ true)
    (promoted : (facts promoting).promoted ≡ true) (switched : (facts switching).switched ≡ true)
    (live : (phase : ActionPhase)
      → is_late phase ≡ true
      → All (IsLive (seen phase).ready (seen phase).probes) (w ∷ ws)) where
  begin-next :
      (f : Facts) (sts : List WorkloadActionStatus)
      → f.dry_run ≡ false
      → f.rollback ≡ false
      → (begin f sts).phase ≡ quiescing
  unfolding begin
  begin-next f sts real kept = rw (real, kept) refl

  step-next :
      (phase : ActionPhase) (status : ActionStatus) (sts : List WorkloadActionStatus)
      → (is_late phase ≡ true → IsDone sts)
      → (step (or_pending phase) status (facts phase) sts).phase ≡ next phase
  unfolding step
  step-next waiting_ready status sts h = wait_ready_of_IsDone sts (facts waiting_ready) (h refl)
  step-next healing status sts h = wait_ready_of_IsDone sts (facts healing) (h refl)
  step-next attesting status sts h = wait_ready_of_IsDone sts (facts attesting) (h refl)
  step-next unset status sts h = begin-next (facts unset) sts (seen unset).real (seen unset).kept
  step-next pending status sts h =
      begin-next (facts pending) sts (seen pending).real (seen pending).kept
  step-next preflight status sts h =
      begin-next (facts preflight) sts (seen preflight).real (seen preflight).kept
  step-next quiescing status sts h = rw frozen refl
  step-next catching_up status sts h = rw lag_zero refl
  step-next promoting status sts h = rw promoted refl
  step-next switching status sts h = rw switched refl
  step-next succeeded status sts h = refl
  step-next failed status sts h = refl
  step-next rolled_back status sts h = refl
  step-next _ status sts h = refl

  advance-next :
      (status : ActionStatus)
      → All IsWanted status.workloads
      → (advance status (facts status.phase)).phase ≡ next status.phase
  unfolding advance
  advance-next status h = unhindered (facts status.phase).rollback _ _ (seen status.phase).kept (
      step-next status.phase status (seed status.workloads (facts status.phase))
        (λ late. seed-IsDone (seen status.phase) status.workloads h (live status.phase late)))
    where
      unhindered :
          (rollback : Bool) (rolls goes : Result)
          → rollback ≡ false
          → goes.phase ≡ next status.phase
          → (if rollback && not (is_rolled_back (or_pending status.phase))
              then rolls
              else goes).phase
            ≡ next status.phase
      unhindered rollback rolls goes kept h = rw kept h

  -- The status after some reconciles.
  unfoldable pub proceed : Option String → ℕ → ActionStatus → ActionStatus
  unfolding write_back advance
  proceed dest zero status = status
  proceed dest (suc n) status =
      proceed dest n (write_back dest status (advance status (facts status.phase)))

  pub progress :
      (dest : Option String) (n : ℕ) (status : ActionStatus)
      → is_lost status.phase ≡ false
      → All IsWanted status.workloads
      → steps_left status.phase ≡ n
      → (proceed dest n status).phase ≡ succeeded
  unfolding proceed write_back
  progress dest zero status l h e = steps_left-zero status.phase l e
  progress dest (suc n) status l h e =
      let (fewer, on) = next-steps_left status.phase n l e in
      let q = advance-next status h in
      progress dest n (write_back dest status (advance status (facts status.phase))) (rw q on)
        (rw (advance-workloads status (facts status.phase))
          (seed-AreWanted (seen status.phase) status.workloads h))
        (rw q fewer)
