-- ===== src/Controller/BackupRun.antt =====
-- internal/controller/action_controller.go: `runBackup`, which makes an artifact of each workload that
-- keeps state and hands them to the backup machine; and `Command` of pkg/dump/dump.go.
pub mod Judged
pub mod Dumped
mod Tests
use portage.Base.{
  ℕ, String, ◌<>◌, ◌==◌, Bool, true, false, not, ◌&&◌, ◌||◌, Option, none, some, List, [], ◌∷◌, map,
  if◌then◌else◌, str_contains, Fallible, ok, err,
}
use portage.Api.{ActionStatus, ArtifactHealth, Time, seconds, unset, catching_up}
use portage.Classify.{Workload, Inventory, stateful}
use portage.Usefulness.{Input, Artifact, for_workload}
use portage.Movers.{Registry, Pick, Mover, Capability, select}
use portage.Restore.{Result, again}
use portage.Backup.{from_artifact}
use portage.Backup
use portage.Controller.Frozen.{is_object_graph}
use portage.Controller.Failover.{Overrides, mover_override, backs_up}

-- `len(dump.Command(engine)) > 0`
unfoldable pub has_dump_command : String → Bool
has_dump_command engine =
    engine == "postgres"
    || engine == "timescale"
    || engine == "mysql"
    || engine == "mariadb"
    || engine == "mongo"
    || engine == "redis"
    || engine == "valkey"
    || engine == "keydb"
    || engine == "dragonfly"

-- What the source answers in one reconcile. `capture_graph` is `captureClusterObjects` (the key, the
-- size, whether it is useful, a message), `backup` a mover's `Backup`, `latest_ready` the newest
-- snapshot after one was asked for (whether it is ready, its name), `capture` `dump.Capture` (the key,
-- the size, whether it is useful), `live_bytes` `probe.LiveBytes`, `write_error` the error of
-- `writePolicyArtifacts`.
pub record Answers : Type 0 where
  pub capture_graph : Workload → Fallible (String × ℕ × Bool × String)
  pub backup : Mover → Workload → Fallible Artifact
  pub latest_ready : Workload → Bool × String
  pub capture : Workload → Fallible (String × ℕ × Bool)
  pub exec : Bool
  pub live_bytes : Workload → Fallible (ℕ × String)
  pub write_error : Option String
  pub now : Time

abbrev pub of_graph : Workload → Fallible (String × ℕ × Bool × String) → ArtifactHealth
of_graph w (err e) = from_artifact w false 0 ("cluster-objects: " <> e) ""
of_graph w (ok (id, n, useful, msg)) =
    let ev = for_workload w (record {
      class = w.class;
      engine = "";
      size_bytes = n;
      files = record { path = "objects.json"; size_bytes = n } ∷ [];
      snapshot_ready = false;
      has_snapshot = false;
    }) in
    from_artifact w (ev.useful && useful) ev.size_bytes
      (if not (msg == "") then msg else ev.message) id

abbrev pub of_backup : Workload → Fallible Artifact → ArtifactHealth
of_backup w (err e) = from_artifact w false 0 e ""
of_backup w (ok art) = from_artifact w art.useful art.size_bytes art.message art.id

-- The size that the artifact is judged by, its message and its key; or the error of the dump.
abbrev pub Measured : Type 0
Measured = Fallible (ℕ × String × String)

abbrev of_dump : Fallible (String × ℕ × Bool) → Measured
of_dump (err e) = err ("dump: " <> e)
of_dump (ok (id, n, useful)) = ok (n, if useful then "object-store dump " <> id else "", id)

abbrev of_live : Fallible (ℕ × String) → Measured
of_live (err e) = ok (0, e, "")
of_live (ok (n, msg)) = ok (n, msg, "")

abbrev pub input_of : Workload → Bool × String → ℕ → String → Input
input_of w (ready, snapshot) size id = record {
  class = w.class;
  engine = w.engine;
  size_bytes = size;
  files = if not (id == "") then record { path = "dump.sql"; size_bytes = size } ∷ [] else [];
  snapshot_ready = ready;
  has_snapshot = not (snapshot == "");
}

abbrev pub of_measured : Workload → Bool × String → Measured → ArtifactHealth
of_measured w snapshot (err e) = from_artifact w false 0 e ""
of_measured w snapshot (ok (size, msg, id)) =
    let ev = for_workload w (input_of w snapshot size id) in
    from_artifact w ev.useful ev.size_bytes (if ev.message == "" then msg else ev.message) id

abbrev pub is_waiting : ArtifactHealth → Bool
is_waiting art =
    str_contains art.message "waiting for lastSyncTime"
    || str_contains art.message "waiting for ReplicationSource"

unfoldable pub first_waiting : List ArtifactHealth → Option ArtifactHealth
first_waiting [] = none
first_waiting (art ∷ arts) = if is_waiting art then some art else first_waiting arts

abbrev no_action : ActionStatus
no_action = record { phase = unset; message = ""; workloads = []; attestation = none }

module _ (movers : Registry) (overrides : Overrides) (a : Answers) where
  abbrev pub measure : Workload → Measured
  measure w =
      if has_dump_command w.engine
      then of_dump (a.capture w)
      else if a.exec
      then of_live (a.live_bytes w)
      else ok (0, "", "")

  -- The dump and the snapshot, after no mover took the workload.
  abbrev pub by_hand : Workload → ArtifactHealth
  by_hand w = of_measured w (a.latest_ready w) (measure w)

  abbrev by_found : Workload → Pick → ArtifactHealth
  by_found w (err e) = by_hand w
  by_found w (ok none) = by_hand w
  by_found w (ok (some (m, capability))) =
      if capability.backup then of_backup w (a.backup m w) else by_hand w

  -- The part after the mover that is named: an engine without a dump looks for a mover.
  abbrev pub without_override : Workload → ArtifactHealth
  without_override w =
      if not (has_dump_command w.engine) then by_found w (select w "" movers) else by_hand w

  abbrev by_override : Workload → Pick → ArtifactHealth
  by_override w (err e) = from_artifact w false 0 e ""
  by_override w (ok none) = without_override w
  by_override w (ok (some (m, capability))) =
      if capability.backup then of_backup w (a.backup m w) else without_override w

  -- The body of the loop, of a workload that keeps state.
  unfoldable pub artifact_of : Workload → ArtifactHealth
  unfolding is_object_graph mover_override select from_artifact for_workload has_dump_command
  artifact_of w =
      let name = mover_override overrides w backs_up in
      if is_object_graph w
      then of_graph w (a.capture_graph w)
      else if not (name == "")
      then by_override w (select w name movers)
      else without_override w

  -- `arts`
  unfoldable pub artifacts : Inventory → List ArtifactHealth
  unfolding artifact_of stateful
  artifacts inv = map artifact_of (stateful inv)

  -- What the backup machine says of the artifacts.
  abbrev pub verdict : Inventory → Result
  verdict inv =
      Backup.advance no_action
        (record { inventory = inv.workloads; artifacts = artifacts inv; now = a.now })

  abbrev pub on_waiting : Inventory → Option ArtifactHealth → Result
  on_waiting inv none = verdict inv
  on_waiting inv (some art) =
      again catching_up (art.workload <> ": " <> art.message) (verdict inv).workloads (seconds 15)

  abbrev pub after_write : Inventory → Option String → Fallible Result
  after_write inv (some e) = err e
  after_write inv none = ok (on_waiting inv (first_waiting (artifacts inv)))

  -- `runBackup`
  unfoldable pub run_backup : Inventory → Fallible Result
  unfolding artifacts first_waiting Backup.advance
  run_backup inv = after_write inv a.write_error
