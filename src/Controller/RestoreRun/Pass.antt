-- ===== src/Controller/RestoreRun/Pass.antt =====
-- internal/controller/action_controller.go: `runRestore`, which applies the manifests, refills the
-- claims of each workload, and hands what it observed to the restore machine.
use mathlib.Core.Option
use portage.Base.{
  String, ◌<>◌, ◌==◌, Bool, true, false, not, Option, none, some, List, [], ◌∷◌, if◌then◌else◌, Map,
  insert, lookup, get, Fallible, ok, err, ◌>>=◌,
}
use portage.Api.{
  ActionStatus, ActionPhase, ArtifactHealth, seconds, is_stateless, unset, preflight, rehydrating,
  applying, failed,
}
use portage.Classify.Catalog.{Engine}
use portage.Classify.{Workload, Inventory, key}
use portage.Movers.{Registry, Pick, select}
use portage.Backup.{by_key, is_useful}
use portage.Restore.{Facts, Result, again, final}
use portage.Restore.Advance.{advance}
use portage.Controller.Resume.{restore_retryable}
use portage.Controller.Frozen.{is_object_graph}
use portage.Controller.Failover.{Overrides, mover_override, restores}
use portage.Controller.RestoreRun.{
  Answers, Seen, nothing_seen, tell, refill, note_artifact, pass_stateless, pass_useless,
  pass_graph, useful_id, heal_workload_on, after_restore, ensure_from, land_dump, after_land,
  skip_text,
}

module _ (engines : List Engine) (movers : Registry) (overrides : Overrides) (a : Answers) where
  -- The part of an iteration after the mover that is named. Without claims and without a dump the
  -- code sets the flag that is set already.
  abbrev pub by_claims : ActionPhase → Workload → Option ArtifactHealth → Seen → Fallible Seen
  by_claims phase w art s =
      after_land engines a w (
        land_dump a phase w (useful_id art) (ensure_from a w (is_useful art) w.pvc_names (s, true)))

  abbrev pub by_pick : ActionPhase → Workload → Option ArtifactHealth → Pick → Seen → Fallible Seen
  by_pick phase w art (err e) s = ok (tell (key w) e (refill (key w) false s))
  by_pick phase w art (ok none) s = by_claims phase w art s
  by_pick phase w art (ok (some (m, capability))) s =
      if capability.restore
      then ok (after_restore engines a w (a.restore m w art) s)
      else by_claims phase w art s

  -- A workload that keeps state and has a useful artifact.
  abbrev pub pass_useful : ActionPhase → Workload → Option ArtifactHealth → Seen → Fallible Seen
  pass_useful phase w art s =
      let name = mover_override overrides w restores in
      if is_object_graph w
      then ok (pass_graph a w art s)
      else if not (name == "")
      then by_pick phase w art (select w name movers) s
      else by_claims phase w art s

  -- The body of the loop; `art` is `artByKey[w.Key()]`.
  unfoldable pub restore_one : ActionPhase → Workload → Option ArtifactHealth → Seen → Fallible Seen
  unfolding get skip_text is_object_graph mover_override select insert ensure_from land_dump
      heal_workload_on
  restore_one phase w art s =
      let s = note_artifact (key w) art s in
      if is_stateless w.class
      then ok (pass_stateless a w s)
      else if not (get false (key w) s.useful)
      then ok (pass_useless w s)
      else pass_useful phase w art s

  unfoldable pub restore_from :
      ActionPhase → Map ArtifactHealth → List Workload → Seen → Fallible Seen
  unfolding restore_one
  restore_from phase arts [] s = ok s
  restore_from phase arts (w ∷ ws) s = do
    s ← restore_one phase w (lookup (key w) arts) s
    restore_from phase arts ws s

  abbrev pub facts_of : Bool → Inventory → Seen → Facts
  facts_of dry_run inv s = record {
    inventory = inv.workloads;
    useful = s.useful;
    useful_message = some s.told;
    rehydrated = s.rehydrated;
    ready = some s.ready;
    probes = some s.probes;
    healed = some s.healed;
    dry_run = dry_run;
    now = a.now;
  }

  -- The phases in which the manifests are applied.
  abbrev pub is_applying : ActionPhase → Bool
  is_applying rehydrating = true
  is_applying applying = true
  is_applying unset = true
  is_applying preflight = true
  is_applying _ = false

  -- `runRestore` ends with an error, with a panic (`ok none`) or with a result.
  abbrev pub Ran : Type 0
  Ran = Fallible (Option Result)

  abbrev pub advance_on : ActionStatus → Bool → Inventory → Fallible Seen → Ran
  advance_on status dry_run inv (err e) = err e
  advance_on status dry_run inv (ok s) =
      ok (Option.map (λ r. r.0) (advance status (facts_of dry_run inv s)))

  abbrev pub after_apply :
      ActionStatus → Bool → List ArtifactHealth → String → Inventory → Option String → Ran
  after_apply status dry_run artifacts applied inv none =
      advance_on status dry_run inv
        (restore_from status.phase (by_key artifacts) inv.workloads (nothing_seen applied))
  after_apply status dry_run artifacts applied inv (some e) =
      let msg = "dest apply: " <> e in
      if restore_retryable msg
      then ok (some (again rehydrating msg status.workloads (seconds 5)))
      else ok (some (final failed msg [] none))

  -- `runRestore`, given the artifacts of the Policy and the annotation of the Action.
  unfoldable pub run_restore : ActionStatus → Bool → List ArtifactHealth → String → Inventory → Ran
  unfolding restore_from restore_retryable advance
  run_restore status dry_run artifacts applied inv =
      after_apply status dry_run artifacts applied inv
        (if is_applying status.phase then a.apply else none)
