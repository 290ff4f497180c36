-- ===== src/Controller/RestoreRun/Tests.antt =====
-- A restore of a database from a dump, and from a snapshot that cannot be read.
use portage.Base.{
  ◌≡◌, ◌≢◌, ◌↔◌, ◌==◌, refl, arith, true, false, none, some, [], ◌∷◌, All, ok, err, get, lookup,
}
use portage.Api.{ActionStatus, ArtifactHealth, rehydrating, succeeded}
use portage.Classify.{Inventory, key}
use portage.Samples.{database, server}
use portage.Controller.Frozen.{is_object_graph}
use portage.Controller.Failover.{Overrides, mover_override, restores}
use portage.Controller.RestoreRun.{Answers, nothing_seen}
use portage.Controller.RestoreRun.Pass.{restore_one, run_restore}
use portage.Controller.RestoreRun.Refilled.{
  Holds, IsUnrecorded, Passes, HasLanded, restore_one-IsRefilled,
}
use portage.Controller.RestoreRun.Whole.{IsWhole, run_restore-IsWhole}

-- The claim cannot be made from a snapshot.
abbrev answers : Answers
answers = record {
  apply = none;
  has_dest = true;
  exec = true;
  ready = λ w. ok true;
  probe = λ w. record { ok = true; message = "" };
  restore_graph = λ w id. ok (true, "");
  restore = λ m w art. none;
  ensure = λ w pvc. err "no ReadyToUse VolumeSnapshot";
  ensured = λ w pvc. [];
  template = λ w. err "not found";
  apply_dump = λ w id. none;
  annotation = λ w. ok "";
  update = λ w. none;
  now = 7;
}

abbrev overrides : Overrides
overrides = record { by_class = []; backup = ""; restore = ""; replicate = "" }

abbrev inventory : Inventory
inventory = record { namespaces = "shop" ∷ []; workloads = database ∷ server ∷ [] }

abbrev dumped : ArtifactHealth
dumped = record {
  workload = "shop/StatefulSet/db";
  useful = true;
  size_bytes = 8_000_000;
  artifact_id = "dumps/db.sql";
  message = "logical dump dump.sql";
}

abbrev status : ActionStatus
status = record { phase = rehydrating; message = ""; workloads = []; attestation = none }

is_plain : is_object_graph database ≡ false
unfolding is_object_graph
is_plain = refl

is_unnamed : (mover_override overrides database restores == "") ≡ true
unfolding mover_override lookup
is_unnamed = refl

restore_one-IsRefilled_example :
    Holds
      (IsUnrecorded answers database)
      (λ t. (get false (key database) t.rehydrated ≡ true) ↔ (
        All (λ pvc. Passes (answers.ensure database pvc)) database.pvc_names
        × HasLanded answers database rehydrating "dumps/db.sql" ""))
      (restore_one [] [] overrides answers rehydrating database (some dumped) (nothing_seen ""))
restore_one-IsRefilled_example =
    restore_one-IsRefilled answers database [] [] overrides rehydrating dumped (nothing_seen "")
      refl is_plain refl is_unnamed

going : rehydrating ≢ succeeded
going h = ground (arith, h)

run_restore-IsWhole_example :
    IsWhole [] [] overrides answers status false inventory
      (run_restore [] [] overrides answers status false (dumped ∷ []) "" inventory)
run_restore-IsWhole_example =
    run_restore-IsWhole [] [] overrides answers status false inventory (dumped ∷ []) "" going refl
