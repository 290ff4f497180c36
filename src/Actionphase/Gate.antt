-- ===== src/Actionphase/Gate.antt =====
-- The gate lets through exactly the complete lists of workloads.
use portage.Base.{ℕ, suc, ◌<◌, ◌≡◌, ◌↔◌, ◌⊎◌, true, false, List, [], ◌∷◌, All, Some, arith}
use portage.Api.{WorkloadActionStatus}
use portage.Actionphase.{skipped, check_from, can_succeed, IsRestored, IsComplete}

abbrev Each : List WorkloadActionStatus → Type 0
Each = All (λ w. (skipped w ≡ true) ⊎ IsRestored w)

check_from_iff :
    (n : ℕ) (ws : List WorkloadActionStatus)
    → ((check_from n ws).0 ≡ true) ↔ (Each ws × ((0 < n) ⊎ Some (λ w. skipped w ≡ false) ws))
unfolding check_from
check_from_iff n [] = ground arith
check_from_iff n (w ∷ ws) = ground (arith, check_from_iff n ws, check_from_iff (suc n) ws)

-- `CanSucceed` reports true exactly when every workload is skipped or is Ready and, unless it is
-- stateless, has passed its class probe, and at least one workload is not skipped.
pub can_succeed_iff : (ws : List WorkloadActionStatus) → ((can_succeed ws).0 ≡ true) ↔ IsComplete ws
unfolding can_succeed
can_succeed_iff [] = ground arith
can_succeed_iff (w ∷ ws) = ground (arith, check_from_iff 0 (w ∷ ws))
