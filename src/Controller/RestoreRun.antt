-- ===== src/Controller/RestoreRun.antt =====
-- internal/controller/action_controller.go: what `runRestore` observes of a workload, branch by branch,
-- with `healWorkloadOn`. The loop and the call of the machine are in Pass.
pub mod Pass
pub mod Refilled
pub mod Whole
mod Tests
use portage.Base.{
  String, ◌<>◌, ◌==◌, Bool, true, false, not, ◌&&◌, ◌||◌, Option, none, some, List, [], ◌∷◌, ◌++◌,
  if◌then◌else◌, Map, insert, lookup, get, has_prefix, Fallible, ok, err, is_empty,
}
use portage.Api.{
  ActionStatus, ActionPhase, ArtifactHealth, Time, seconds, is_stateless, unset, preflight,
  rehydrating, applying, waiting_ready, healing, attesting, failed,
}
use portage.Kube.{PodSpec}
use portage.Heal.{heal_pod}
use portage.Classify.Catalog.{Engine}
use portage.Classify.{Workload, Inventory, key}
use portage.Movers.{Registry, Pick, Mover, Capability, select}
use portage.Backup.{by_key, is_useful}
use portage.Restore.{Facts, ProbeResult, Result, again, final}
use portage.Restore.Advance
use portage.Controller.Resume.{restore_retryable}
use portage.Controller.Frozen.{is_object_graph}
use portage.Controller.Failover.{Overrides, mover_override, restores}
use portage.Controller.Dumps.{dump_applied, remember_dump_applied}

-- What the destination answers in one reconcile. `apply` is the error of `apply.Typed`, `ensure` is
-- `EnsurePVCFromSnapshot` (whether it is done, or its error) and `ensured` the fixes that it tells;
-- `template` reads the pod of a StatefulSet or a Deployment; `annotation` and `update` are what the
-- last attempt of `rememberDumpApplied` for a workload reads and meets. Without a client of the
-- destination (`has_dest`) the code panics on `workloads.Ready` of a workload with a useful artifact,
-- and the model does not; `Reconcile` takes the client of the source then, so it never gets there.
pub record Answers : Type 0 where
  pub apply : Option String
  pub has_dest : Bool
  pub exec : Bool
  pub ready : Workload → Fallible Bool
  pub probe : Workload → ProbeResult
  pub restore_graph : Workload → String → Fallible (Bool × String)
  pub restore : Mover → Workload → Option ArtifactHealth → Option String
  pub ensure : Workload → String → Fallible Bool
  pub ensured : Workload → String → List String
  pub template : Workload → Fallible PodSpec
  pub apply_dump : Workload → String → Option String
  pub annotation : Workload → Fallible String
  pub update : Workload → Option String
  pub now : Time

-- The maps of the facts, and the annotation of the Action as it is read in this reconcile.
pub record Seen : Type 0 where
  pub useful : Map Bool
  pub told : Map String
  pub rehydrated : Map Bool
  pub ready : Map Bool
  pub probes : Map ProbeResult
  pub healed : Map (List String)
  pub applied : String

abbrev pub nothing_seen : String → Seen
nothing_seen applied = record {
  useful = [];
  told = [];
  rehydrated = [];
  ready = [];
  probes = [];
  healed = [];
  applied = applied;
}

-- `facts.UsefulMessage[w.Key()] = msg`, and so on.
abbrev pub tell : String → String → Seen → Seen
tell k msg s = record s { told = insert k msg s.told }

abbrev pub refill : String → Bool → Seen → Seen
refill k b s = record s { rehydrated = insert k b s.rehydrated }

abbrev pub see_ready : String → Bool → Seen → Seen
see_ready k b s = record s { ready = insert k b s.ready }

abbrev pub add_healed : String → List String → Seen → Seen
add_healed k names s = record s { healed = insert k (get [] k s.healed ++ names) s.healed }

abbrev pub note_artifact : String → Option ArtifactHealth → Seen → Seen
note_artifact k none s = s
note_artifact k (some a) s = record s {
  useful = insert k a.useful s.useful;
  told = insert k a.message s.told;
}

abbrev pub on_ready : String → Fallible Bool → Seen → Seen
on_ready k (err e) s = tell k e (see_ready k false s)
on_ready k (ok ready) s =
    tell k (if ready then "dest Ready" else "dest not Ready") (see_ready k ready s)

abbrev pub or_false : Fallible Bool → Bool
or_false (ok b) = b
or_false (err e) = false

-- A workload that keeps no state.
abbrev pub pass_stateless : Answers → Workload → Seen → Seen
pass_stateless a w s =
    let s = record s { useful = insert (key w) true s.useful } in
    let s = refill (key w) true s in
    if not a.has_dest
    then tell (key w) "dest client required" (see_ready (key w) false s)
    else on_ready (key w) (a.ready w) s

-- A workload without a useful artifact.
unfoldable pub skip_text : String → String
skip_text told =
    let msg = if told == "" then "no useful artifact" else told in
    if has_prefix msg "skipped:" then msg else "skipped: " <> msg

abbrev pub pass_useless : Workload → Seen → Seen
pass_useless w s = refill (key w) true (tell (key w) (skip_text (get "" (key w) s.told)) s)

abbrev pub after_graph : String → Fallible (Bool × String) → Seen → Seen
after_graph k (err e) s = tell k e (refill k false s)
after_graph k (ok (good, msg)) s =
    let s = see_ready k good (refill k true s) in
    let s = record s { probes = insert k (record { ok = good; message = msg }) s.probes } in
    if not good then tell k msg s else s

-- `a.ArtifactID`, where the artifact is there and useful, else "".
abbrev pub useful_id : Option ArtifactHealth → String
useful_id none = ""
useful_id (some art) = if art.useful then art.artifact_id else ""

abbrev pub pass_graph : Answers → Workload → Option ArtifactHealth → Seen → Seen
pass_graph a w art s =
    let id = useful_id art in
    if not (id == "") then after_graph (key w) (a.restore_graph w id) s else s

-- `healWorkloadOn`
abbrev names_of : List Engine → Fallible PodSpec → List String
names_of engines (err e) = []
names_of engines (ok pod) = (heal_pod engines pod).1

unfoldable pub heal_workload_on : List Engine → Answers → Workload → Seen → Seen
unfolding heal_pod
heal_workload_on engines a w s =
    if not a.has_dest || not (w.kind == "StatefulSet" || w.kind == "Deployment")
    then s
    else let names = names_of engines (a.template w) in
      if is_empty names then s else add_healed (key w) names s

abbrev pub probe_if : Answers → Workload → Bool → Seen → Seen
probe_if a w ready s =
    if ready && a.exec then record s { probes = insert (key w) (a.probe w) s.probes } else s

-- The mover that the Policy names has restored, or failed to.
abbrev pub after_restore : List Engine → Answers → Workload → Option String → Seen → Seen
after_restore engines a w (some e) s = tell (key w) e (refill (key w) false s)
after_restore engines a w none s =
    let s = heal_workload_on engines a w (refill (key w) true s) in
    let ready = or_false (a.ready w) in probe_if a w ready (see_ready (key w) ready s)

-- The body of the loop over the claims; `useful` is that of the artifact.
abbrev pub after_ensure : Bool → String → Fallible Bool → Seen × Bool → Seen × Bool
after_ensure useful k (err e) (s, refilled) = if useful then (s, refilled) else (tell k e s, false)
after_ensure useful k (ok done) (s, refilled) = (s, refilled && done)

unfoldable pub ensure_from : Answers → Workload → Bool → List String → Seen × Bool → Seen × Bool
ensure_from a w useful [] r = r
ensure_from a w useful (pvc ∷ pvcs) (s, refilled) = ensure_from a w useful pvcs (
    after_ensure useful (key w) (a.ensure w pvc) (add_healed (key w) (a.ensured w pvc) s, refilled))

-- The phases in which the dump was applied before.
abbrev pub is_past_dump : ActionPhase → Bool
is_past_dump waiting_ready = true
is_past_dump healing = true
is_past_dump attesting = true
is_past_dump _ = false

abbrev pub after_remember : Seen × Bool → Fallible String → Fallible (Seen × Bool)
after_remember r (err e) = err e
after_remember (s, refilled) (ok annotation) = ok (record s { applied = annotation }, refilled)

abbrev pub after_dump : Answers → Workload → Option String → Seen × Bool → Fallible (Seen × Bool)
after_dump a w (some e) (s, refilled) = ok (tell (key w) e s, false)
after_dump a w none r =
    after_remember r (remember_dump_applied (a.annotation w) (a.update w) (key w))

-- The logical dump: `id` is that of a useful artifact, or "".
unfoldable pub land_dump :
    Answers → ActionPhase → Workload → String → Seen × Bool → Fallible (Seen × Bool)
unfolding dump_applied remember_dump_applied
land_dump a phase w id (s, refilled) =
    if id == "" || is_past_dump phase || dump_applied s.applied (key w)
    then ok (s, refilled)
    else if not (or_false (a.ready w))
    then ok (s, false)
    else after_dump a w (a.apply_dump w id) (s, refilled)

abbrev pub note_ready : Answers → Workload → Fallible Bool → Seen → Seen
note_ready a w (err e) s = s
note_ready a w (ok ready) s = probe_if a w ready (see_ready (key w) ready s)

abbrev pub after_land : List Engine → Answers → Workload → Fallible (Seen × Bool) → Fallible Seen
after_land engines a w (err e) = err e
after_land engines a w (ok (s, refilled)) =
    ok (note_ready a w (a.ready w) (heal_workload_on engines a w (refill (key w) refilled s)))
