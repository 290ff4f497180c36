-- ===== src/Probe/Tests.antt =====
-- A database whose command answers, and a volume.
use portage.Base.{String, ◌≡◌, ◌↔◌, ◌⊎◌, refl, true, false, none, some, List, ok, err}
use portage.Api.{generic_pvc}
use portage.Samples.{database}
use portage.Probe.{ExecResult, Place, is_graph, default_spec, run, result}
use portage.Probe.Passed.{has_probe, IsAnswered, run-ok_iff}

abbrev answers : Place → List String → ExecResult
answers place command = record { error = none; stderr = "" }

run-ok_iff_example : ((run (some answers) (ok ("db-0", "postgres")) database).ok ≡ true) ↔ (
    (is_graph database.class ≡ false)
    × ((has_probe database ≡ false)
        ⊎ ((has_probe database ≡ true)
            × IsAnswered (some answers) (ok ("db-0", "postgres")) (default_spec database).command)))
run-ok_iff_example = run-ok_iff (some answers) (ok ("db-0", "postgres")) database

-- A volume of no known engine passes without a pod.
volume_test :
    run none (err "no pod") (record database { class = generic_pvc; engine = "" })
    ≡ result true "volume-mounted"
unfolding run
volume_test = refl
