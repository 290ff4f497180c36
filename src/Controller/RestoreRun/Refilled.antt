-- ===== src/Controller/RestoreRun/Refilled.antt =====
-- When a reconcile of a restore takes a workload to be rehydrated.
use portage.Base.{
  String, ◌==◌, ◌≡◌, refl, sym, ap, ◌∙◌, ◌↔◌, ◌⊎◌, Bool, true, false, not, ◌||◌, Option, none, some,
  List, [], ◌∷◌, All, arith, if◌then◌else◌, Map, insert, get, lookup-insert, Fallible, ok, err,
}
use mathlib.Core.Path.{subst}
use text.Mathlib.TextEquality.{eq_iff}
use portage.Api.{ActionPhase, ArtifactHealth, is_stateless}
use portage.Classify.Catalog.{Engine}
use portage.Classify.{Workload, key}
use portage.Movers.{Registry}
use portage.Controller.Frozen.{is_object_graph}
use portage.Controller.Failover.{Overrides, mover_override, restores}
use portage.Controller.Dumps.{dump_applied, remember_dump_applied}
use portage.Controller.RestoreRun.{
  Answers, Seen, refill, add_healed, heal_workload_on, after_ensure, ensure_from, is_past_dump,
  after_remember, after_dump, land_dump, note_ready, after_land, or_false, note_artifact,
}
use portage.Controller.RestoreRun.Pass.{restore_one, by_claims}

-- What holds of an error, and what holds of a result.
abbrev pub Holds : {A : Type 0} → (String → Type 0) → (A → Type 0) → Fallible A → Type 0
Holds E P (err e) = E e
Holds E P (ok x) = P x

pub if-Holds :
    {A : Type 0} (E : String → Type 0) (P : A → Type 0) (b : Bool) (x y : Fallible A)
    → (b ≡ true → Holds E P x)
    → (b ≡ false → Holds E P y)
    → Holds E P (if b then x else y)
if-Holds E P true x y h k = h refl
if-Holds E P false x y h k = k refl

pub Holds-map :
    {A : Type 0} (E : String → Type 0) {P Q : A → Type 0} (r : Fallible A)
    → ((x : A) → P x → Q x)
    → Holds E P r
    → Holds E Q r
Holds-map E (err e) f h = h
Holds-map E (ok x) f h = f x h

-- The branch that is taken past two tests of either kind.
passed :
    {A : Type 0} (E : String → Type 0) (P : A → Type 0) (keeps useful graph unnamed : Bool)
    (x y z n last : Fallible A)
    → keeps ≡ false
    → useful ≡ true
    → graph ≡ false
    → unnamed ≡ true
    → Holds E P last
    → Holds E P (
        if keeps
        then x
        else if not useful
        then y
        else if graph
        then z
        else if not unnamed
        then n
        else last)
passed E P keeps useful graph unnamed x y z n last h k l m goal = rw (h, k, l, m) goal

same_text : (k : String) → (k == k) ≡ true
same_text k = (eq_iff k k).1 refl

get-insert-same : (k : String) (b : Bool) (m : Map Bool) → get false k (insert k b m) ≡ b
unfolding get
get-insert-same k b m = rw (lookup-insert k b m k, same_text k) refl

-- A claim that is done, or whose call met an error.
abbrev pub Passes : Fallible Bool → Type 0
Passes (ok done) = done ≡ true
Passes (err e) = Unit

module _ (a : Answers) (w : Workload) where
  -- The dump of the artifact needs no replay, or was replayed.
  abbrev pub HasLanded : ActionPhase → String → String → Type 0
  HasLanded phase id applied =
      (id == "" ≡ true)
      ⊎ (is_past_dump phase ≡ true)
      ⊎ (dump_applied applied (key w) ≡ true)
      ⊎ ((or_false (a.ready w) ≡ true) × (a.apply_dump w id ≡ none))

  heal-rehydrated :
      (engines : List Engine) (s : Seen)
      → (heal_workload_on engines a w s).rehydrated ≡ s.rehydrated
  unfolding heal_workload_on
  heal-rehydrated engines s = ground arith

  note_ready-rehydrated :
      (r : Fallible Bool) (s : Seen) → (note_ready a w r s).rehydrated ≡ s.rehydrated
  note_ready-rehydrated (err e) s = refl
  note_ready-rehydrated (ok ready) s = ground arith

  after_ensure-flag :
      (r : Fallible Bool) (k : String) (s : Seen) (b : Bool)
      → ((after_ensure true k r (s, b)).1 ≡ true) ↔ ((b ≡ true) × Passes r)
  after_ensure-flag (err e) k s b = ground arith
  after_ensure-flag (ok done) k s b = ground arith

  after_ensure-applied :
      (r : Fallible Bool) (k : String) (s : Seen) (b : Bool)
      → (after_ensure true k r (s, b)).0.applied ≡ s.applied
  after_ensure-applied (err e) k s b = refl
  after_ensure-applied (ok done) k s b = refl

  ensure_from-flag :
      (pvcs : List String) (r : Seen × Bool)
      → ((ensure_from a w true pvcs r).1 ≡ true)
        ↔ ((r.1 ≡ true) × All (λ pvc. Passes (a.ensure w pvc)) pvcs)
  unfolding ensure_from
  ensure_from-flag [] r = (λ h. (h, tt), λ h. h.0)
  ensure_from-flag (pvc ∷ pvcs) (s, b) =
      let healed = add_healed (key w) (a.ensured w pvc) s in
      ground (
        arith,
        ensure_from-flag pvcs (after_ensure true (key w) (a.ensure w pvc) (healed, b)),
        after_ensure-flag (a.ensure w pvc) (key w) healed b,
      )

  ensure_from-applied :
      (pvcs : List String) (r : Seen × Bool) → (ensure_from a w true pvcs r).0.applied ≡ r.0.applied
  unfolding ensure_from
  ensure_from-applied [] r = refl
  ensure_from-applied (pvc ∷ pvcs) (s, b) =
      let healed = add_healed (key w) (a.ensured w pvc) s in
      ensure_from-applied pvcs (after_ensure true (key w) (a.ensure w pvc) (healed, b))
      ∙ after_ensure-applied (a.ensure w pvc) (key w) healed b

  -- The call that records a dump.
  abbrev recording : Fallible String
  recording = remember_dump_applied (a.annotation w) (a.update w) (key w)

  -- That call failed.
  abbrev pub IsUnrecorded : String → Type 0
  IsUnrecorded e = remember_dump_applied (a.annotation w) (a.update w) (key w) ≡ err e

  after_remember-flag :
      (P : Bool → Type 0) (r : Seen × Bool) (remember : Fallible String)
      → P r.1
      → Holds (λ e. remember ≡ err e) (λ t. P t.1) (after_remember r remember)
  after_remember-flag P r (err e) h = refl
  after_remember-flag P r (ok annotation) h = h

  after_dump-flag :
      (applied : Option String) (r : Seen × Bool)
      → Holds IsUnrecorded
          (λ t. (t.1 ≡ true) ↔ ((r.1 ≡ true) × (applied ≡ none)))
          (after_dump a w applied r)
  after_dump-flag (some e) r = ground arith
  after_dump-flag none r =
      after_remember-flag (λ b. (b ≡ true) ↔ ((r.1 ≡ true) × (Path (Option String) none none))) r
        recording (ground arith)

  pub land_dump-flag :
      (phase : ActionPhase) (id : String) (r : Seen × Bool)
      → Holds IsUnrecorded
          (λ t. (t.1 ≡ true) ↔ ((r.1 ≡ true) × HasLanded phase id r.0.applied))
          (land_dump a phase w id r)
  unfolding land_dump
  land_dump-flag phase id (s, b) =
      if-Holds IsUnrecorded _ (id == "" || is_past_dump phase || dump_applied s.applied (key w)) _ _
        (λ skips. ground (arith, skips))
        (λ needed.
          if-Holds IsUnrecorded _ (not (or_false (a.ready w))) _ _
            (λ unready. ground (arith, needed, unready))
            (λ ready.
              Holds-map IsUnrecorded (after_dump a w (a.apply_dump w id) (s, b))
                (λ t h. ground (arith, needed, ready, h))
                (after_dump-flag (a.apply_dump w id) (s, b))))

  pub after_land-flag :
      (engines : List Engine) (r : Fallible (Seen × Bool)) (P : Bool → Type 0)
      → Holds IsUnrecorded (λ t. P t.1) r
      → Holds IsUnrecorded (λ s. P (get false (key w) s.rehydrated)) (after_land engines a w r)
  after_land-flag engines (err e) P h = h
  after_land-flag engines (ok (s, refilled)) P h =
      let healed = heal_workload_on engines a w (refill (key w) refilled s) in
      let same : (note_ready a w (a.ready w) healed).rehydrated
          ≡ insert (key w) refilled s.rehydrated =
        note_ready-rehydrated (a.ready w) healed
        ∙ heal-rehydrated engines (refill (key w) refilled s) in
      subst P (sym (ap (get false (key w)) same ∙ get-insert-same (key w) refilled s.rehydrated)) h

  -- What `restore_one-IsRefilled` says of the flag.
  abbrev IsRefilled : ActionPhase → String → String → Bool → Type 0
  IsRefilled phase id applied b =
      (b ≡ true) ↔ (All (λ pvc. Passes (a.ensure w pvc)) w.pvc_names × HasLanded phase id applied)

  by_claims-IsRefilled :
      (engines : List Engine) (movers : Registry) (overrides : Overrides) (phase : ActionPhase)
      (art : ArtifactHealth) (s : Seen)
      → art.useful ≡ true
      → Holds IsUnrecorded
          (λ t. IsRefilled phase art.artifact_id s.applied (get false (key w) t.rehydrated))
          (by_claims engines movers overrides a phase w (some art) s)
  by_claims-IsRefilled engines movers overrides phase art s useful =
      let r = ensure_from a w true w.pvc_names (s, true) in
      rw useful (
        after_land-flag engines (land_dump a phase w art.artifact_id r)
          (IsRefilled phase art.artifact_id s.applied)
          (Holds-map IsUnrecorded (land_dump a phase w art.artifact_id r)
            (λ t h. ground (
              arith,
              h,
              ensure_from-flag w.pvc_names (s, true),
              ensure_from-applied w.pvc_names (s, true),
            ))
            (land_dump-flag phase art.artifact_id r)))

  -- A reconcile takes a workload to be rehydrated exactly if every one of its claims is done or the
  -- call for it met an error, and its dump, if the artifact has one, was applied before, or was
  -- applied now to a ready workload, or the phase is past the dump. It fails only if a dump
  -- cannot be recorded. This holds of a workload that keeps state, is not the object graph,
  -- has a useful artifact and no mover that the Policy names.
  pub restore_one-IsRefilled :
      (engines : List Engine) (movers : Registry) (overrides : Overrides) (phase : ActionPhase)
      (art : ArtifactHealth) (s : Seen)
      → is_stateless w.class ≡ false
      → is_object_graph w ≡ false
      → art.useful ≡ true
      → (mover_override overrides w restores == "") ≡ true
      → Holds IsUnrecorded
          (λ t. (get false (key w) t.rehydrated ≡ true) ↔ (
            All (λ pvc. Passes (a.ensure w pvc)) w.pvc_names
            × HasLanded phase art.artifact_id s.applied))
          (restore_one engines movers overrides a phase w (some art) s)
  unfolding restore_one
  restore_one-IsRefilled engines movers overrides phase art s keeps plain useful unnamed =
      passed IsUnrecorded _ (is_stateless w.class)
        (get false (key w) (note_artifact (key w) (some art) s).useful) (is_object_graph w)
        (mover_override overrides w restores == "") _ _ _ _ _ keeps
        (get-insert-same (key w) art.useful s.useful ∙ useful) plain unnamed
        (by_claims-IsRefilled engines movers overrides phase art
          (note_artifact (key w) (some art) s) useful)
