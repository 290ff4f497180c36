-- ===== src/Controller/RestoreRun/Whole.antt =====
-- What a whole reconcile of a restore ends in.
use mathlib.Core.Option.{none-ne-some}
use mathlib.Core.Option
use portage.Base.{
  String, ◌==◌, ◌≡◌, ◌≢◌, refl, sym, ap, ◌∙◌, inl, inr, Bool, true, false, not, Option, none, some,
  List, [], ◌∷◌, Some, arith, if◌then◌else◌, Map, lookup, get, Fallible, ok, err, ◌>>=◌, ◌<>◌,
}
use portage.Api.{
  ActionStatus, ActionPhase, ArtifactHealth, is_stateless, succeeded, failed, rehydrating, seconds,
}
use portage.Classify.Catalog.{Engine}
use portage.Classify.{Workload, Inventory, key}
use portage.Movers.{Registry, Pick, select}
use portage.Backup.{by_key, is_useful}
use portage.Restore.{Result, again, final}
use portage.Restore.Advance.{advance, Outcome}
use portage.Restore.Success.{IsProven, advance-IsProven}
use portage.Restore.Refusal.{advance-eq-none_iff}
use portage.Controller.Resume.{restore_retryable}
use portage.Controller.Frozen.{is_object_graph}
use portage.Controller.Failover.{Overrides, mover_override, restores}
use portage.Controller.RestoreRun.{
  Answers, Seen, nothing_seen, note_artifact, land_dump, ensure_from, useful_id,
}
use portage.Controller.RestoreRun.Refilled.{
  Holds, if-Holds, Holds-map, IsUnrecorded, land_dump-flag, after_land-flag,
}
use portage.Controller.RestoreRun.Pass.{
  by_claims, by_pick, pass_useful, restore_one, restore_from, facts_of, is_applying, advance_on,
  after_apply, run_restore,
}

module _ (engines : List Engine) (movers : Registry) (overrides : Overrides) (a : Answers) where
  -- An iteration fails only on the record of a dump.
  by_claims-fails :
      (phase : ActionPhase) (w : Workload) (art : Option ArtifactHealth) (s : Seen)
      → Holds (IsUnrecorded a w) (λ t. Unit) (by_claims engines movers overrides a phase w art s)
  by_claims-fails phase w art s =
      let r = ensure_from a w (is_useful art) w.pvc_names (s, true) in
      after_land-flag a w engines (land_dump a phase w (useful_id art) r) (λ b. Unit)
        (Holds-map (IsUnrecorded a w) (land_dump a phase w (useful_id art) r) (λ t h. tt)
          (land_dump-flag a w phase (useful_id art) r))

  by_pick-fails :
      (phase : ActionPhase) (w : Workload) (art : Option ArtifactHealth) (pick : Pick) (s : Seen)
      → Holds (IsUnrecorded a w) (λ t. Unit) (by_pick engines movers overrides a phase w art pick s)
  by_pick-fails phase w art (err e) s = tt
  by_pick-fails phase w art (ok none) s = by_claims-fails phase w art s
  by_pick-fails phase w art (ok (some (m, capability))) s =
      if-Holds (IsUnrecorded a w) _ capability.restore _ _ (λ h. tt)
        (λ h. by_claims-fails phase w art s)

  pass_useful-fails :
      (phase : ActionPhase) (w : Workload) (art : Option ArtifactHealth) (s : Seen)
      → Holds (IsUnrecorded a w) (λ t. Unit) (pass_useful engines movers overrides a phase w art s)
  pass_useful-fails phase w art s =
      let name = mover_override overrides w restores in
      if-Holds (IsUnrecorded a w) _ (is_object_graph w) _ _ (λ h. tt)
        (λ h.
          if-Holds (IsUnrecorded a w) _ (not (name == "")) _ _
            (λ k. by_pick-fails phase w art (select w name movers) s)
            (λ k. by_claims-fails phase w art s))

  restore_one-fails :
      (phase : ActionPhase) (w : Workload) (art : Option ArtifactHealth) (s : Seen)
      → Holds (IsUnrecorded a w) (λ t. Unit) (restore_one engines movers overrides a phase w art s)
  unfolding restore_one
  restore_one-fails phase w art s =
      let noted = note_artifact (key w) art s in
      if-Holds (IsUnrecorded a w) _ (is_stateless w.class) _ _ (λ h. tt)
        (λ h.
          if-Holds (IsUnrecorded a w) _ (not (get false (key w) noted.useful)) _ _ (λ k. tt)
            (λ k. pass_useful-fails phase w art noted))

  -- The dump of some workload was applied and could not be recorded.
  abbrev pub IsLost : List Workload → String → Type 0
  IsLost ws e = Some (λ w. IsUnrecorded a w e) ws

  then-Holds :
      (w : Workload) (ws : List Workload) (r : Fallible Seen) (next : Seen → Fallible Seen)
      → Holds (IsUnrecorded a w) (λ t. Unit) r
      → ((s : Seen) → Holds (IsLost ws) (λ t. Unit) (next s))
      → Holds (IsLost (w ∷ ws)) (λ t. Unit) (r >>= next)
  then-Holds w ws (err e) next h k = inl h
  then-Holds w ws (ok s) next h k = later (next s) (k s)
    where
      later :
          (r : Fallible Seen)
          → Holds (IsLost ws) (λ t. Unit) r
          → Holds (IsLost (w ∷ ws)) (λ t. Unit) r
      later (err e) h = inr h
      later (ok t) h = tt

  restore_from-fails :
      (phase : ActionPhase) (arts : Map ArtifactHealth) (ws : List Workload) (s : Seen)
      → Holds (IsLost ws) (λ t. Unit) (restore_from engines movers overrides a phase arts ws s)
  unfolding restore_from
  restore_from-fails phase arts [] s = tt
  restore_from-fails phase arts (w ∷ ws) s =
      then-Holds w ws (restore_one engines movers overrides a phase w (lookup (key w) arts) s)
        (restore_from engines movers overrides a phase arts ws)
        (restore_one-fails phase w (lookup (key w) arts) s) (restore_from-fails phase arts ws)

  module _ (status : ActionStatus) (dry_run : Bool) (inv : Inventory) where
    -- How a reconcile of an Action that had not succeeded and is no dry run ends: with an error of
    -- the record of a dump, or with a result, and never with a panic. A success is proven, on
    -- manifests that were applied where the phase applies them.
    abbrev pub IsWhole : Fallible (Option Result) → Type 0
    IsWhole (err e) = IsLost inv.workloads e
    IsWhole (ok none) = ⊥
    IsWhole (ok (some r)) =
        r.phase ≡ succeeded
        → IsProven a.now r
          × ((is_applying engines movers overrides a status.phase ≡ true) → a.apply ≡ none)

    of_outcome :
        (s : Seen) (o : Option Outcome)
        → status.phase ≢ succeeded
        → dry_run ≡ false
        → advance status (facts_of engines movers overrides a dry_run inv s) ≡ o
        → ((is_applying engines movers overrides a status.phase ≡ true) → a.apply ≡ none)
        → IsWhole (ok (Option.map (λ r. r.0) o))
    of_outcome s none fresh live eq applied = absurd (
        none-ne-some _ (
          sym
            ((advance-eq-none_iff status (facts_of engines movers overrides a dry_run inv s)).0
              eq).1))
    of_outcome s (some (r, told)) fresh live eq applied = λ won. (
      advance-IsProven status (facts_of engines movers overrides a dry_run inv s) r told fresh live
          eq won,
      applied,
    )

    advance_on-IsWhole :
        (seen : Fallible Seen)
        → status.phase ≢ succeeded
        → dry_run ≡ false
        → Holds (IsLost inv.workloads) (λ t. Unit) seen
        → ((is_applying engines movers overrides a status.phase ≡ true) → a.apply ≡ none)
        → IsWhole (advance_on engines movers overrides a status dry_run inv seen)
    advance_on-IsWhole (err e) fresh live h applied = h
    advance_on-IsWhole (ok s) fresh live h applied = of_outcome s _ fresh live refl applied

    after_apply-IsWhole :
        (artifacts : List ArtifactHealth) (applied : String) (apply : Option String)
        → status.phase ≢ succeeded
        → dry_run ≡ false
        → (apply ≡ none
            → (is_applying engines movers overrides a status.phase ≡ true)
            → a.apply ≡ none)
        → IsWhole
            (after_apply engines movers overrides a status dry_run artifacts applied inv apply)
    after_apply-IsWhole artifacts applied none fresh live clean =
        advance_on-IsWhole _ fresh live
          (restore_from-fails status.phase (by_key artifacts) inv.workloads (nothing_seen applied))
          (clean refl)
    after_apply-IsWhole artifacts applied (some e) fresh live clean =
        of_error (restore_retryable ("dest apply: " <> e))
      where
        of_error :
            (b : Bool)
            → IsWhole (
                if b
                then ok
                    (some (again rehydrating ("dest apply: " <> e) status.workloads (seconds 5)))
                else ok (some (final failed ("dest apply: " <> e) [] none)))
        of_error true = λ won. ground (arith, won)
        of_error false = λ won. ground (arith, won)

    -- A reconcile of a restore never panics, and fails only if the record of a dump that was applied
    -- fails. It gives phase Succeeded only with a proven list of workloads, attested, and only if no error met the apply
    -- of the manifests, where the phase applies them. This holds of an Action that had not
    -- succeeded and is no dry run.
    pub run_restore-IsWhole :
        (artifacts : List ArtifactHealth) (applied : String)
        → status.phase ≢ succeeded
        → dry_run ≡ false
        → IsWhole (run_restore engines movers overrides a status dry_run artifacts applied inv)
    unfolding run_restore
    run_restore-IsWhole artifacts applied fresh live =
        after_apply-IsWhole artifacts applied
          (if is_applying engines movers overrides a status.phase then a.apply else none) fresh live
          (λ clean applies. sym (ap (λ b. if b then a.apply else none) applies) ∙ clean)
