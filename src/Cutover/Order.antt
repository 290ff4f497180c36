-- ===== src/Cutover/Order.antt =====
-- The order in which a cutover passes its gates, over any run of reconciles.
use mathlib.Core.Path.{subst}
use portage.Base.{
  sym, not, ◌&&◌, ◌≡◌, ◌⊎◌, inl, inr, true, false, Bool, Option, List, [], ◌∷◌, All, String,
  Bool-cases,
}
use portage.Api.{
  ActionStatus, ActionPhase, WorkloadActionStatus, or_pending, unset, pending, preflight, quiescing,
  catching_up, promoting, switching, waiting_ready, healing, attesting, succeeded,
}
use portage.Controller.Status.{write_back}
use portage.Cutover.{Facts, begin, step, seed, advance, is_rolled_back}

-- The status after a run of reconciles; the machine's result is the next status.
unfoldable pub run : Option String → ActionStatus → List Facts → ActionStatus
run dest status [] = status
run dest status (f ∷ fs) = run dest (write_back dest status (advance status f)) fs

-- Some observations pass the gates, one after another, in this order.
abbrev pub InOrder : List (Facts → Bool) → List Facts → Type 0
InOrder [] fs = Unit
InOrder (gate ∷ gates) [] = ⊥
InOrder (gate ∷ gates) (f ∷ fs) = ((gate f ≡ true) × InOrder gates fs) ⊎ InOrder (gate ∷ gates) fs

-- The gates that stand between a phase and a success.
abbrev pub gates : ActionPhase → List (Facts → Bool)
gates catching_up = (λ f. f.lag_zero) ∷ (λ f. f.promoted) ∷ (λ f. f.switched) ∷ []
gates promoting = (λ f. f.promoted) ∷ (λ f. f.switched) ∷ []
gates switching = (λ f. f.switched) ∷ []
gates waiting_ready = []
gates healing = []
gates attesting = []
gates succeeded = []
gates _ = (λ f. f.frozen) ∷ (λ f. f.lag_zero) ∷ (λ f. f.promoted) ∷ (λ f. f.switched) ∷ []

InOrder-tail :
    (gate : Facts → Bool) (rest : List (Facts → Bool)) (fs : List Facts)
    → InOrder (gate ∷ rest) fs
    → InOrder rest fs
InOrder-tail gate [] fs h = tt
InOrder-tail gate (next ∷ rest) [] h = h
InOrder-tail gate (next ∷ rest) (f ∷ fs) (inl (here, later)) = inr later
InOrder-tail gate (next ∷ rest) (f ∷ fs) (inr later) =
    inr (InOrder-tail gate (next ∷ rest) fs later)

abbrev all_gates : List (Facts → Bool)
all_gates = gates pending

past_freeze : (fs : List Facts) → InOrder all_gates fs → InOrder (gates catching_up) fs
past_freeze fs h = InOrder-tail (λ f. f.frozen) (gates catching_up) fs h

past_lag : (fs : List Facts) → InOrder all_gates fs → InOrder (gates promoting) fs
past_lag fs h = InOrder-tail (λ f. f.lag_zero) (gates promoting) fs (past_freeze fs h)

past_promotion : (fs : List Facts) → InOrder all_gates fs → InOrder (gates switching) fs
past_promotion fs h = InOrder-tail (λ f. f.promoted) (gates switching) fs (past_lag fs h)

-- Whoever passed all the gates passed those that remain after any phase.
InOrder-gates :
    (phase : ActionPhase) (fs : List Facts) → InOrder all_gates fs → InOrder (gates phase) fs
InOrder-gates catching_up fs h = past_freeze fs h
InOrder-gates promoting fs h = past_lag fs h
InOrder-gates switching fs h = past_promotion fs h
InOrder-gates waiting_ready fs h = tt
InOrder-gates healing fs h = tt
InOrder-gates attesting fs h = tt
InOrder-gates succeeded fs h = tt
InOrder-gates _ fs h = h

-- A later observation does not undo what was passed before.
InOrder-later :
    (gs : List (Facts → Bool)) (f : Facts) (fs : List Facts) → InOrder gs fs → InOrder gs (f ∷ fs)
InOrder-later [] f fs h = tt
InOrder-later (gate ∷ rest) f fs h = inr h

module _ (status : ActionStatus) (f : Facts) (ws : List WorkloadActionStatus)
    (live : f.dry_run ≡ false) (fs : List Facts) where
  begin-gates : InOrder (gates (begin f ws).phase) fs → InOrder all_gates fs
  unfolding begin
  begin-gates h = elim (Bool-cases f.rollback) [
    | inl back ↦ rw back at h
    | inr on ↦ rw (on, live) at h
  ]

  step-gates :
      (phase : ActionPhase)
      → InOrder (gates (step (or_pending phase) status f ws).phase) fs
      → InOrder (gates phase) (f ∷ fs)
  unfolding step
  step-gates quiescing h = elim (Bool-cases f.frozen) [
    | inl open_gate ↦ inl (open_gate, rw open_gate at h)
    | inr shut_gate ↦ inr (rw shut_gate at h)
  ]
  step-gates catching_up h = elim (Bool-cases f.lag_zero) [
    | inl open_gate ↦ inl (open_gate, rw open_gate at h)
    | inr shut_gate ↦ inr (rw shut_gate at h)
  ]
  step-gates promoting h = elim (Bool-cases f.promoted) [
    | inl open_gate ↦ inl (open_gate, rw open_gate at h)
    | inr shut_gate ↦ inr (rw shut_gate at h)
  ]
  step-gates switching h = elim (Bool-cases f.switched) [
    | inl open_gate ↦ inl (open_gate, tt)
    | inr shut_gate ↦ inr (rw shut_gate at h)
  ]
  step-gates waiting_ready h = tt
  step-gates healing h = tt
  step-gates attesting h = tt
  step-gates succeeded h = tt
  step-gates unset h = inr (begin-gates h)
  step-gates pending h = inr (begin-gates h)
  step-gates preflight h = inr (begin-gates h)
  step-gates _ h = inr h

advance-gates :
    (status : ActionStatus) (f : Facts) (fs : List Facts)
    → f.dry_run ≡ false
    → InOrder (gates (advance status f).phase) fs
    → InOrder (gates status.phase) (f ∷ fs)
unfolding advance
advance-gates status f fs live h =
    elim (Bool-cases (f.rollback && not (is_rolled_back (or_pending status.phase)))) [
      | inl back ↦
          InOrder-later (gates status.phase) f fs (InOrder-gates status.phase fs (rw back at h))
      | inr on ↦ step-gates status f (seed status.workloads f) live fs status.phase (rw on at h)
    ]

-- A cutover that starts in phase `status.phase`, ends a run of reconciles in phase Succeeded, and
-- was no dry run, has passed the gates between the two in order: for a new Action, some reconcile
-- saw the source frozen, a later one the replica's lag at zero, a later one the destination
-- promoted, and a later one the traffic switched.
pub run-InOrder :
    (dest : Option String) (status : ActionStatus) (fs : List Facts)
    → All (λ f. f.dry_run ≡ false) fs
    → (run dest status fs).phase ≡ succeeded
    → InOrder (gates status.phase) fs
unfolding run write_back
run-InOrder dest status [] live won = subst (λ p. InOrder (gates p) []) (sym won) tt
run-InOrder dest status (f ∷ fs) (here, live) won =
    advance-gates status f fs here
      (run-InOrder dest (write_back dest status (advance status f)) fs live won)
