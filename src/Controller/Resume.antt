-- ===== src/Controller/Resume.antt =====
-- internal/controller/action_controller.go: which Actions a reconcile takes up, the part of
-- `Reconcile` before the machine runs.
use portage.Base.{
  String, ◌==◌, Bool, true, false, not, ◌||◌, Option, none, some, List, [], ◌∷◌, if◌then◌else◌, any,
  contains_fold, str_contains,
}
use portage.Api.{ActionStatus, ActionPhase, rehydrating, succeeded, failed, rolled_back}

-- `ActionType`; `other_type` is a text that the enumeration does not have.
pub data ActionType : Type 0 where
  backup restore replicate cutover : ActionType
  other_type : String → ActionType

abbrev pub is_restore : ActionType → Bool
is_restore restore = true
is_restore _ = false

abbrev pub is_replicate : ActionType → Bool
is_replicate replicate = true
is_replicate _ = false

-- The texts that make a failure final.
abbrev pub final_texts : List String
final_texts =
    "preflight:" ∷ "no restorable" ∷ "no workloads" ∷ "unsupported action" ∷ "spec.policyref"
    ∷ "policy:" ∷ "dry-run" ∷ []

-- `restoreRetryable`
unfoldable pub restore_retryable : String → Bool
restore_retryable msg =
    if msg == ""
    then false
    else if any (contains_fold msg) final_texts
    then false
    else str_contains msg "dest apply:"
      || contains_fold msg "not found"
      || contains_fold msg "non-owned tenant"
      || contains_fold msg "admission webhook"
      || contains_fold msg "the object has been modified"

-- The first `switch` of `Reconcile`, for an Action that is not being deleted: `none` where it
-- returns, else the status that the reconcile goes on with.
abbrev enter_phase : ActionType → Bool → ActionStatus → ActionPhase → Option ActionStatus
enter_phase type dry_run status succeeded =
    if not (is_replicate type) || dry_run then none else some status
enter_phase type dry_run status rolled_back = none
enter_phase type dry_run status failed =
    if not (is_restore type) || not (restore_retryable status.message)
    then none
    else some (record status { phase = rehydrating })
enter_phase type dry_run status _ = some status

unfoldable pub enter : ActionType → Bool → ActionStatus → Option ActionStatus
unfolding restore_retryable
enter type dry_run status = enter_phase type dry_run status status.phase
