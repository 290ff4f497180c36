-- ===== src/Controller/BackupRun/Tests.antt =====
-- A backup of a database whose dump is small, and of one whose dump is not.
use portage.Base.{◌≡◌, ◌↔◌, ◌==◌, refl, true, false, none, [], ◌∷◌, ok, err, inl, lookup, i64_le}
use portage.Classify.{Inventory}
use portage.Samples.{database, server}
use portage.Controller.Frozen.{is_object_graph}
use portage.Controller.Failover.{Overrides, mover_override, backs_up}
use portage.Controller.BackupRun.{Answers, artifact_of, run_backup, has_dump_command}
use portage.Controller.BackupRun.Judged.{IsJudgedBy, run_backup-IsJudgedBy}
use portage.Controller.BackupRun.Dumped.{IsDumped, artifact_of_iff}
use portage.Backup
use portage.Usefulness.{looks_like_dump}

abbrev answers : Answers
answers = record {
  capture_graph = λ w. ok ("graph", 900, true, "");
  backup = λ m w. err "no mover";
  latest_ready = λ w. (true, "snap-1");
  capture = λ w. ok ("dumps/db.sql", 4096, true);
  exec = true;
  live_bytes = λ w. ok (50_000_000, "du");
  write_error = none;
  now = 7;
}

-- The dump has eight million bytes.
abbrev full : Answers
full = record answers { capture = λ w. ok ("dumps/db.sql", 8_000_000, true) }

abbrev overrides : Overrides
overrides = record { by_class = []; backup = ""; restore = ""; replicate = "" }

abbrev inventory : Inventory
inventory = record { namespaces = "shop" ∷ []; workloads = database ∷ server ∷ [] }

is_plain : is_object_graph database ≡ false
unfolding is_object_graph
is_plain = refl

is_unnamed : (mover_override overrides database backs_up == "") ≡ true
unfolding mover_override lookup
is_unnamed = refl

refuses_small : (artifact_of [] overrides answers database).useful ≡ false
unfolding artifact_of Backup.from_artifact lookup looks_like_dump i64_le
refuses_small = refl

artifact_of_iff_example :
    ((artifact_of [] overrides full database).useful ≡ true) ↔ IsDumped (full.capture database)
unfolding has_dump_command
artifact_of_iff_example =
    artifact_of_iff [] overrides full database is_plain is_unnamed refl (inl refl)

run_backup-IsJudgedBy_example :
    IsJudgedBy [] overrides full inventory full.write_error (run_backup [] overrides full inventory)
run_backup-IsJudgedBy_example = run_backup-IsJudgedBy [] overrides full inventory
