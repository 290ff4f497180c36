-- ===== src/Actionphase/Tests.antt =====
-- The gate at concrete workloads.
use portage.Base.{◌≡◌, refl, ◌↔◌, true, false, [], ◌∷◌, has_prefix}
use portage.Api.{WorkloadActionStatus, sql_logical, no_status}
use portage.Actionphase.{can_succeed, skipped, IsComplete}
use portage.Actionphase.Gate.{can_succeed_iff}

abbrev database : WorkloadActionStatus
database = record no_status { name = "db"; class = sql_logical; ready = true; probe_ok = true }

abbrev left_out : WorkloadActionStatus
left_out = record no_status { name = "cache"; message = "skipped: no useful artifact" }

can_succeed_iff_example :
    ((can_succeed (left_out ∷ database ∷ [])).0 ≡ true) ↔ IsComplete (left_out ∷ database ∷ [])
can_succeed_iff_example = can_succeed_iff (left_out ∷ database ∷ [])

can_succeed_tests :
    (can_succeed (left_out ∷ database ∷ []) ≡ (true, ""))
    × (can_succeed (left_out ∷ []) ≡ (false, "no restorable workloads"))
    × (can_succeed (record database { probe_ok = false } ∷ [])
        ≡ (false, "db class probe has not passed"))
unfolding can_succeed skipped has_prefix
can_succeed_tests = (refl, refl, refl)
