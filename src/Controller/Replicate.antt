-- ===== src/Controller/Replicate.antt =====
-- internal/controller/action_controller.go: `runReplicate`, which keeps the live replica, with
-- `destStatelessStatus` and `replicateRequeue`.
pub mod Requeue
pub mod Live
mod Tests
use portage.Base.{
  String, ◌<>◌, ◌==◌, Bool, true, false, not, ◌&&◌, ◌||◌, Option, none, some, List, [], ◌∷◌, ◌++◌,
  if◌then◌else◌, has_prefix, Fallible, ok, err, i64_lt, i64_le,
}
use portage.Api.{
  WorkloadActionStatus, Time, Duration, seconds, is_stateless, succeeded, failed, catching_up,
}
use portage.Classify.{Workload, Inventory, key}
use portage.Movers.{Registry, Pick, Mover, select}
use portage.Restore.{ProbeResult, Result, again, final}
use portage.Controller.Frozen.{is_object_graph}
use portage.Controller.Failover.{Overrides, mover_override, replicates}

-- What the clusters answer in one reconcile. `graph` is `syncClusterObjectsLive`, `dest` the read of
-- `workloads.Ready` where there is a client of the destination, `replicate` the error of a mover's
-- `Replicate`, and `parse` is `time.ParseDuration`, whose int64 is a bit pattern.
pub record Answers : Type 0 where
  pub graph : Workload → Fallible (Bool × String)
  pub dest : Option (Workload → Fallible Bool)
  pub replicate : Mover → Workload → Option String
  pub probe : Mover → Workload → ProbeResult
  pub parse : String → Fallible Duration
  pub now : Time

-- The composite literal that both loops start from.
abbrev pub blank : Workload → WorkloadActionStatus
blank w = record {
  name = w.name;
  key = key w;
  class = w.class;
  engine = w.engine;
  ready = false;
  probe = "";
  probe_ok = false;
  message = "";
  healed = [];
}

abbrev pub waiting_text : String
waiting_text = "waiting for replica sync"

abbrev pub no_mover : String
no_mover = "no replicate-capable mover"

abbrev of_ready : Workload → Fallible Bool → WorkloadActionStatus
of_ready w (err e) = record (blank w) { message = e }
of_ready w (ok false) = record (blank w) { message = "dest not Ready" }
of_ready w (ok true) = record (blank w) { ready = true; probe_ok = true; message = "dest Ready" }

-- `destStatelessStatus`
unfoldable pub dest_stateless_status :
    Option (Workload → Fallible Bool) → Workload → WorkloadActionStatus
dest_stateless_status none w = record (blank w) { message = "dest client required" }
dest_stateless_status (some ready) w = of_ready w (ready w)

-- `clusterSt` and `clusterFailed`.
pub record Graph : Type 0 where
  pub status : Option WorkloadActionStatus
  pub trouble : String

abbrev pub note_sync : Workload → Fallible (Bool × String) → Graph → Graph
note_sync w (err e) g = record { status = some (record (blank w) { message = e }); trouble = e }
note_sync w (ok (good, msg)) g = record {
  status = some (record (blank w) { ready = good; probe_ok = good; probe = msg; message = msg });
  trouble = if good then g.trouble else waiting_text <> ": " <> msg;
}

abbrev pub row_of : Option WorkloadActionStatus → List WorkloadActionStatus
row_of none = []
row_of (some st) = st ∷ []

-- `failed`, after an object graph.
abbrev pub after_graph : String → String → String
after_graph trouble before =
    if not (trouble == "") && (before == "" || not (has_prefix trouble waiting_text))
    then trouble
    else before

-- `failed` and the statuses that an iteration appends.
abbrev pub Step : Type 0
Step = String × List WorkloadActionStatus

abbrev pub said : Workload → String → Step
said w message = (message, record (blank w) { message = message } ∷ [])

abbrev pub after_replicate : Workload → String → Option String → ProbeResult → Step
after_replicate w before (some e) pr = said w e
after_replicate w before none pr = (
  if not pr.ok && before == "" then waiting_text <> ": " <> pr.message else before,
  record (blank w) { probe = pr.message; probe_ok = pr.ok; message = pr.message; ready = pr.ok }
      ∷ [],
)

-- `replicateRequeue`; `rpo` is the text of the Policy, "" where there is no Policy.
abbrev pub clamped : Fallible Duration → Duration
clamped (err e) = seconds 5
clamped (ok d) =
    if i64_le d 0
    then seconds 5
    else if i64_lt d (seconds 5)
    then d
    else if i64_lt (seconds 15) d
    then seconds 15
    else d

unfoldable pub replicate_requeue : (String → Fallible Duration) → String → Duration
unfolding i64_lt i64_le
replicate_requeue parse rpo = if rpo == "" then seconds 5 else clamped (parse rpo)

module _ (movers : Registry) (overrides : Overrides) (a : Answers) where
  -- The loop over the object graph.
  unfoldable pub sync_from : Graph → List Workload → Graph
  unfolding is_object_graph
  sync_from g [] = g
  sync_from g (w ∷ ws) =
      sync_from (if not (is_object_graph w) then g else note_sync w (a.graph w) g) ws

  abbrev pub by_pick : Workload → String → Pick → Step
  by_pick w before (err e) = said w e
  by_pick w before (ok none) = said w no_mover
  by_pick w before (ok (some (m, capability))) =
      if not capability.replicate
      then said w no_mover
      else after_replicate w before (a.replicate m w) (a.probe m w)

  -- The mover that a workload is replicated by.
  unfoldable pub choose : Workload → Pick
  unfolding mover_override select
  choose w = select w (mover_override overrides w replicates) movers

  -- The body of the second loop.
  unfoldable pub replicate_one : Graph → Workload → String → Step
  unfolding is_object_graph choose has_prefix dest_stateless_status
  replicate_one g w before =
      if is_stateless w.class
      then (before, dest_stateless_status a.dest w ∷ [])
      else if is_object_graph w
      then (after_graph g.trouble before, row_of g.status)
      else by_pick w before (choose w)

  unfoldable pub replicate_from : Graph → List Workload → String → Step
  unfolding replicate_one
  replicate_from g [] before = (before, [])
  replicate_from g (w ∷ ws) before =
      let (now, row) = replicate_one g w before in
      let (end, rows) = replicate_from g ws now in (end, row ++ rows)

  unfoldable pub replicate_all : List Workload → Step
  unfolding replicate_from sync_from
  replicate_all ws = replicate_from (sync_from (record { status = none; trouble = "" }) ws) ws ""

  abbrev pub live : List WorkloadActionStatus → Duration → Result
  live ws requeue = record (again catching_up "replica lag=0; dest probed; live-sync" ws requeue) {
    attestation =
        some (record {
          recorded_at = a.now;
          source = "controller";
          workloads = ws;
          artifact_ids = [];
        });
  }

  abbrev pub conclude : Bool → Duration → Step → Result
  conclude dry_run requeue (trouble, ws) =
      if dry_run
      then final succeeded "dry-run replicate" ws none
      else if not (trouble == "")
      then if trouble == no_mover
        then final failed trouble ws none
        else again catching_up
            (if has_prefix trouble waiting_text then trouble else waiting_text <> ": " <> trouble)
            ws requeue
      else live ws requeue

  -- `runReplicate`
  unfoldable pub run_replicate : Bool → String → Inventory → Result
  unfolding replicate_all replicate_requeue
  run_replicate dry_run rpo inv =
      conclude dry_run (replicate_requeue a.parse rpo) (replicate_all inv.workloads)
