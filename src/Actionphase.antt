-- ===== src/Actionphase.antt =====
-- pkg/actionphase/complete.go: the gate of phase Succeeded. Kubernetes Ready is not enough: each
-- workload that holds state must pass its class probe, unless it was reported as skipped.
pub mod Gate
mod Tests
use portage.Base.{
  ℕ, zero, suc, String, ◌<>◌, ◌≡◌, ◌⊎◌, Bool, true, false, not, ◌||◌, List, [], ◌∷◌, All, Some,
  nat_beq, if◌then◌else◌, has_prefix,
}
use portage.Api.{WorkloadActionStatus, is_stateless}

unfoldable pub skipped : WorkloadActionStatus → Bool
skipped w = has_prefix w.message "skipped:"

-- `w.Class == ClassStateless || w.ProbeOK`
abbrev pub probed : WorkloadActionStatus → Bool
probed w = is_stateless w.class || w.probe_ok

-- The loop of `CanSucceed` and what follows it.
unfoldable pub check_from : ℕ → List WorkloadActionStatus → Bool × String
check_from restorable [] =
    if nat_beq restorable 0 then (false, "no restorable workloads") else (true, "")
check_from restorable (w ∷ ws) =
    let passed = check_from restorable ws in
    let counted = check_from (suc restorable) ws in
    if skipped w
    then passed
    else if not w.ready
    then (false, w.name <> " is not Ready")
    else if probed w
    then counted
    else (false, w.name <> " class probe has not passed")

unfoldable pub can_succeed : List WorkloadActionStatus → Bool × String
unfolding check_from
can_succeed [] = (false, "no workloads recorded")
can_succeed (w ∷ ws) = check_from 0 (w ∷ ws)

-- The specification of the gate: Ready, and probed unless stateless.
abbrev pub IsRestored : WorkloadActionStatus → Type 0
IsRestored w = (w.ready ≡ true) × (probed w ≡ true)

-- Every workload was restored or was reported as skipped, and not all were skipped.
pub record IsComplete (ws : List WorkloadActionStatus) : Type 0 where
  pub each : All (λ w. (skipped w ≡ true) ⊎ IsRestored w) ws
  pub some_restored : Some (λ w. skipped w ≡ false) ws
