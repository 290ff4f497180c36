-- ===== src/Policy/Once.antt =====
-- Over a whole RPO window the Policy reconciler creates one Backup Action at most.
use native.Mathlib.Nat.{div-add-mod}
use mathlib.Core.Path.{subst}
use portage.Base.{
  ℕ, ◌+◌, ◌*◌, ◌/◌, ◌≤◌, String, ◌==◌, ◌≡◌, ◌≢◌, refl, sym, ap, ◌∙◌, Bool, true, false, not, ◌||◌,
  List, [], ◌∷◌, All, arith, inl, inr, Option-cases, Fallible, ok, i64_le, if◌then◌else◌, ◌⊎◌,
  All-imp, at_most, ◌<>◌,
}
use portage.Api.{Time, Duration}
use portage.Policy.{Policy, rpo_backup_name, truncate, unix_text}
use portage.Policy.Actions.{
  Action, Got, found, not_found, refused, Write, nothing, fails, creates, updates, deletes,
  maybe_backup, when_absent, backup_action,
}
use portage.Policy.Server.{Server, carry_out, created, made}

truncate_window : (t u : Time) (d : Duration) → t / d ≡ u / d → truncate t d ≡ truncate u d
truncate_window t u d e = omega (arith, div-add-mod t d, div-add-mod u d, ap (λ (k : ℕ). d * k) e)

-- The write creates an Action of the name, or nothing.
abbrev pub Names : String → Write → Type 0
Names n nothing = Unit
Names n (fails e) = Unit
Names n (creates a) = a.name ≡ n
Names n (updates a) = ⊥
Names n (deletes m) = ⊥

when_absent-Names : (a : Action) (reply : Got Action) → Names a.name (when_absent a reply)
when_absent-Names a (found b) = tt
when_absent-Names a not_found = refl
when_absent-Names a (refused e) = tt

if-Names :
    (b : Bool) (n : String) (v w : Write) → Names n v → Names n w → Names n (if b then v else w)
if-Names true n v w h k = h
if-Names false n v w h k = k

maybe_backup-Names :
    (parse : String → Fallible Duration) (pol : Policy) (now : Time) (read : String → Got Action)
    (d : Duration)
    → parse pol.backup_rpo ≡ ok d
    → Names (rpo_backup_name pol.name now d) (maybe_backup parse pol now read)
unfolding maybe_backup
maybe_backup-Names parse pol now read d p = rw p (
    if-Names (not pol.backup_enabled || pol.backup_rpo == "") _ nothing _ tt
      (if-Names (i64_le d 0) _ nothing _ tt (when_absent-Names (backup_action pol _) (read _))))

true_ne_false : true ≢ false
true_ne_false e = cc

-- A pass reads by `view` what may be behind what is stored.
module _ (server : Server) (view : server.Store → String → Got Action)
    (parse : String → Fallible Duration) (pol : Policy) where
  open server use {Store, holds, create, create-absent, holds-create, create-refused}

  -- A pass at a time, after whatever the others did to what is stored.
  abbrev pub Event : Type 0
  Event = Time × (Store → Store)

  -- The others delete nothing.
  abbrev pub Keeps : (Store → Store) → Type 0
  Keeps other = (s : Store) (n : String) → holds s n ≡ true → holds (other s) n ≡ true

  abbrev pub pass : Time → Store → Write
  pass now s = maybe_backup parse pol now (view s)

  -- How many Actions a sequence of passes creates.
  unfoldable pub count_created : List Event → Store → ℕ
  count_created [] s = 0
  count_created ((now, other) ∷ events) s =
      let s' = other s in
      created server (pass now s') s' + count_created events (carry_out server (pass now s') s').1

  held-created :
      (n : String) (w : Write) (s : Store) → Names n w → holds s n ≡ true → created server w s ≡ 0
  held-created n nothing s h k = refl
  held-created n (fails e) s h k = refl
  held-created n (creates a) s h k = elim (Option-cases (create s a).0) [
    | inl good ↦ absurd (true_ne_false (sym k ∙ ap (holds s) (sym h) ∙ create-absent s a good))
    | inr (e, bad) ↦ ap (made server) bad
  ]
  held-created n (updates a) s h k = absurd h
  held-created n (deletes m) s h k = absurd h

  held-carry_out :
      (n : String) (w : Write) (s : Store)
      → Names n w
      → holds s n ≡ true
      → holds (carry_out server w s).1 n ≡ true
  held-carry_out n nothing s h k = k
  held-carry_out n (fails e) s h k = k
  held-carry_out n (creates a) s h k = elim (Option-cases (create s a).0) [
    | inl good ↦ ap (holds (create s a).1) (sym h) ∙ holds-create s a good
    | inr (e, bad) ↦ ap (λ r. holds r n) (create-refused s a e bad) ∙ k
  ]
  held-carry_out n (updates a) s h k = absurd h
  held-carry_out n (deletes m) s h k = absurd h

  -- A pass creates nothing, or what it created is stored after it.
  created-cases :
      (n : String) (w : Write) (s : Store)
      → Names n w
      → (created server w s ≡ 0)
        ⊎ ((created server w s ≡ 1) × (holds (carry_out server w s).1 n ≡ true))
  created-cases n nothing s h = inl refl
  created-cases n (fails e) s h = inl refl
  created-cases n (creates a) s h = elim (Option-cases (create s a).0) [
    | inl good ↦
        inr (ap (made server) good, ap (holds (create s a).1) (sym h) ∙ holds-create s a good)
    | inr (e, bad) ↦ inl (ap (made server) bad)
  ]
  created-cases n (updates a) s h = absurd h
  created-cases n (deletes m) s h = absurd h

  module _ (d : Duration) (parsed : parse pol.backup_rpo ≡ ok d) (n : String) where
    -- The pass falls in the window whose Backup Action is named `n`.
    abbrev InWindow : Event → Type 0
    InWindow (now, other) = (rpo_backup_name pol.name now d ≡ n) × Keeps other

    pass-Names :
        (now : Time) (s : Store) → rpo_backup_name pol.name now d ≡ n → Names n (pass now s)
    pass-Names now s e =
        subst (λ m. Names m (pass now s)) e (maybe_backup-Names parse pol now (view s) d parsed)

    count_created-held :
        (events : List Event) (s : Store)
        → All InWindow events
        → holds s n ≡ true
        → count_created events s ≡ 0
    unfolding count_created
    count_created-held [] s _ held = refl
    count_created-held ((now, other) ∷ events) s ((e, keeps), rest) held =
        let w = pass-Names now (other s) e in
        let held' = keeps s n held in
        omega (
          arith,
          held-created n _ (other s) w held',
          count_created-held events _ rest (held-carry_out n _ (other s) w held'),
        )

    count_created-le :
        (events : List Event) (s : Store) → All InWindow events → count_created events s ≤ 1
    unfolding count_created
    count_created-le [] s _ = omega arith
    count_created-le ((now, other) ∷ events) s ((e, keeps), rest) =
        elim (created-cases n _ (other s) (pass-Names now (other s) e)) [
          | inl none_made ↦ omega (
            arith,
            none_made,
            count_created-le events (carry_out server (pass now (other s)) (other s)).1 rest,
          )
          | inr (one_made, held) ↦ omega (arith, one_made, count_created-held events _ rest held)
        ]

  -- Within one window of the RPO, the Policy reconciler creates one Backup Action at most, over any
  -- sequence of passes, whatever they read and whatever the others write in between, if these delete
  -- no Action.
  pub count_created_once :
      (d k : ℕ) (events : List Event) (s : Store)
      → parse pol.backup_rpo ≡ ok d
      → All (λ event. (event.0 / d ≡ k) × Keeps event.1) events
      → count_created events s ≤ 1
  unfolding rpo_backup_name count_created
  count_created_once d k [] s parsed _ = omega arith
  count_created_once d k ((now, other) ∷ events) s parsed h =
      let n = rpo_backup_name pol.name now d in
      count_created-le d parsed n ((now, other) ∷ events) s (
        All-imp (λ (event : Event). (event.0 / d ≡ k) × Keeps event.1) _
          (λ event (window, keeps). (
            ap (λ t. at_most 63 ("backup-" <> pol.name <> "-" <> unix_text t))
                (truncate_window event.0 now d (window ∙ sym h.0.0)),
            keeps,
          ))
          ((now, other) ∷ events) h)
