-- ===== src/Backup/Tests.antt =====
-- A backup with one dump that is too small.
use portage.Base.{
  ◌≡◌, refl, true, false, none, List, [], ◌∷◌, lookup, index_from, find_last, insert,
}
use portage.Api.{ActionStatus, ArtifactHealth, pending, failed}
use portage.Classify.{Inventory, key}
use portage.Samples.{database}
use portage.Backup.{from_artifact, healthy, Facts, advance}
use portage.Backup.Health.{IsReport, healthy-IsReport}
use portage.Backup.Machine.{IsJudged, advance-IsJudged}

abbrev inventory : Inventory
inventory = record { namespaces = "shop" ∷ []; workloads = database ∷ [] }

-- The later artifact counts.
abbrev artifacts : List ArtifactHealth
artifacts =
    from_artifact database true 70000 "logical dump" "a"
    ∷ from_artifact database false 12000 "too small" "b"
    ∷ []

abbrev facts : Facts
facts = record { inventory = database ∷ []; artifacts = artifacts; now = 7 }

abbrev status : ActionStatus
status = record { phase = pending; message = ""; workloads = []; attestation = none }

healthy-IsReport_example :
    IsReport (λ k. find_last (λ a. a.workload) k artifacts) inventory (healthy inventory artifacts)
healthy-IsReport_example = healthy-IsReport inventory artifacts

healthy_test : healthy inventory artifacts ≡ (false, "shop/StatefulSet/db" ∷ [])
unfolding healthy lookup index_from key from_artifact insert
healthy_test = refl

backup-IsJudged_example : IsJudged facts (advance status facts)
backup-IsJudged_example = advance-IsJudged status facts

advance_fails : (advance status facts).phase ≡ failed
unfolding advance lookup index_from key from_artifact insert
advance_fails = refl
