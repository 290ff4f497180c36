-- ===== src/Controller/Final.antt =====
-- A restore that the machine failed stays failed.
use text.Mathlib.TextLemmas.{append_assoc}
use portage.Base.{
  String, ◌<>◌, ◌==◌, ◌≡◌, ◌≢◌, refl, Bool, false, not, Option, none, some, List, Map, arith,
  contains_fold-append, trim_space-solid, solid, Bool-cases, inl, inr,
}
use portage.Api.{
  WorkloadActionStatus, ActionStatus, ActionPhase, or_pending, unset, pending, preflight,
  rehydrating, applying, waiting_ready, healing, attesting, failed,
}
use portage.Restore.{Facts, Result}
use portage.Restore.Advance.{Preflight, settle, attest, rehydrate, start, started, step, advance}
use portage.Controller.Status.{told, write_back}
use portage.Controller.Resume.{ActionType, restore_retryable, enter}

-- A failure of the machine tells of the preflight.
abbrev TellsPreflight : Result → Type 0
TellsPreflight r = (refusal : String) × (r.message ≡ "preflight: " <> refusal)

module _ (facts : Facts) (ws : List WorkloadActionStatus) where
  attest-goes : (attest ws facts.now).phase ≢ failed
  unfolding attest
  attest-goes = ground arith

  settle-goes : (settle ws facts.now).phase ≢ failed
  unfolding settle
  settle-goes = ground arith

  rehydrate-goes : (rehydrate facts ws).phase ≢ failed
  unfolding rehydrate
  rehydrate-goes = ground arith

start-TellsPreflight :
    (facts : Facts) (refusal : String) (p : Preflight)
    → (start facts (refusal, p)).phase ≡ failed
    → TellsPreflight (start facts (refusal, p))
unfolding start
start-TellsPreflight facts refusal p h = elim (Bool-cases (not (refusal == ""))) [
  | inl refused ↦ (refusal, rw refused)
  | inr passed ↦ ground arith
]

started-TellsPreflight :
    (facts : Facts) (o : Option (String × Preflight)) {r : Result} {m : Option (Map String)}
    → started facts o ≡ some (r, m)
    → r.phase ≡ failed
    → TellsPreflight r
started-TellsPreflight facts none e h = cc
started-TellsPreflight facts (some (refusal, p)) e h =
    ground (arith, start-TellsPreflight facts refusal p)

module _ (status : ActionStatus) (facts : Facts) (ws : List WorkloadActionStatus) {r : Result}
    {m : Option (Map String)} where
  step-TellsPreflight :
      (phase : ActionPhase)
      → step phase status facts ws ≡ some (r, m)
      → phase ≢ failed
      → r.phase ≡ failed
      → TellsPreflight r
  unfolding step
  step-TellsPreflight pending e other h = started-TellsPreflight facts _ e h
  step-TellsPreflight preflight e other h = started-TellsPreflight facts _ e h
  step-TellsPreflight rehydrating e other h = ground (arith, rehydrate-goes facts ws)
  step-TellsPreflight applying e other h = ground (arith, rehydrate-goes facts ws)
  step-TellsPreflight waiting_ready e other h = ground (arith, settle-goes facts ws)
  step-TellsPreflight healing e other h = ground (arith, settle-goes facts ws)
  step-TellsPreflight attesting e other h = ground (arith, attest-goes facts ws)
  step-TellsPreflight failed e other h = absurd (other refl)
  step-TellsPreflight _ e other h = ground arith

preflight-final : (t : String) → restore_retryable ("preflight:" <> t) ≡ false
unfolding restore_retryable
preflight-final t = ground (arith, contains_fold-append "preflight:" t)

told-final :
    (dest : Option String) (t : String) → restore_retryable (told dest ("preflight:" <> t)) ≡ false
unfolding told solid
told-final none t = preflight-final t
told-final (some d) t = elim (Bool-cases (d == "")) [
  | inl unnamed ↦ rw unnamed (preflight-final t)
  | inr named ↦
      let (rest, trimmed) = trim_space-solid "preflight:" (t <> "; dest=" <> d) refl refl in
      rw (named, append_assoc, trimmed) (preflight-final rest)
]

enter-failed :
    (type : ActionType) (dry_run : Bool) (status : ActionStatus)
    → status.phase ≡ failed
    → restore_retryable status.message ≡ false
    → enter type dry_run status ≡ none
unfolding enter
enter-failed type dry_run status h k = rw (h, k) (ground arith)

or_pending-failed : (phase : ActionPhase) → phase ≢ failed → or_pending phase ≢ failed
or_pending-failed unset h = ground arith
or_pending-failed _ h = h

-- A Restore Action that the machine moves into phase Failed is final: once the result is written
-- back, with the name of the destination in its message, no reconcile takes the Action up again.
pub advance-IsFinal :
    (type : ActionType) (dry_run : Bool) (dest : Option String) (status : ActionStatus)
    (facts : Facts) (r : Result) (m : Option (Map String))
    → status.phase ≢ failed
    → advance status facts ≡ some (r, m)
    → r.phase ≡ failed
    → enter type dry_run (write_back dest status r) ≡ none
unfolding advance write_back
advance-IsFinal type dry_run dest status facts r m before e h =
    let (refusal, message) =
      step-TellsPreflight status facts _ (or_pending status.phase) e
        (or_pending-failed status.phase before) h in
    enter-failed type dry_run (write_back dest status r) h
      (rw (message, append_assoc "preflight:" " " refusal) (told-final dest (" " <> refusal)))
