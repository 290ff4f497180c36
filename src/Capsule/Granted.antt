-- ===== src/Capsule/Granted.antt =====
-- What holds when the registration of a caller as an owner of the Tenant ends without an error.
use mathlib.Core.Path.{subst}
use mathlib.Core.List.{append-nil}
use portage.Base.{
  ℕ, zero, suc, ◌+◌, ◌<◌, ◌==◌, ◌≡◌, refl, sym, true, false, ◌||◌, Option, none, some, List, [],
  ◌∷◌, ◌++◌, ◌⊎◌, inl, inr, any-append, arith, eq_refl, Bool-cases,
}
use portage.Graph.Sync.{
  Answer, fine, not_found, forbidden, method_not_supported, already_exists, conflict, failure,
}
use portage.Capsule.{Caller, Entry}
use portage.Capsule.Access.{
  Read, got, no, Tenant, find_dest_tenant, matches_subject, subject_listed,
}
use portage.Capsule.Ensure.{
  new_owner, Attempt, Attempted, settled, refused, ensure_tenant_spec_owner_once, or_again,
  ensure_from, ensure_tenant_spec_owner, on_tenant, after_update,
}

-- The owners after an attempt that wrote some, or none.
abbrev pub owners_after : Option (List Entry) → List Entry → List Entry
owners_after none owners = owners
owners_after (some written) owners = written

-- The attempt found the Tenant; it lists the caller then, by what was written or without; and it lists
-- all owners that it listed before, in order.
abbrev pub IsGranted : Caller → Option (List Entry) → Attempt → Type 0
IsGranted caller written a =
    (t : Tenant) × (find_dest_tenant not_found a.tenants ≡ got t)
    × (subject_listed (owners_after written t.spec_owners) caller ≡ true)
    × ((more : List Entry) × (owners_after written t.spec_owners ≡ t.spec_owners ++ more))
    × ((written ≡ none) ⊎ (a.update ≡ fine))

-- A subject that is no group and has a name.
abbrev pub IsSubject : Caller → Type 0
IsSubject caller =
    ((caller.kind == "User" || caller.kind == "ServiceAccount") ≡ true)
    × ((caller.name == "") ≡ false)

module _ (caller : Caller) (subject : IsSubject caller) where
  matches_subject-new_owner : matches_subject caller (new_owner caller) ≡ true
  unfolding matches_subject
  matches_subject-new_owner = ground (arith, eq_refl caller.name)

  subject_listed-new_owner :
      (owners : List Entry) → subject_listed (owners ++ new_owner caller ∷ []) caller ≡ true
  unfolding subject_listed
  subject_listed-new_owner owners = ground (
    arith,
    any-append (matches_subject caller) owners (new_owner caller ∷ []),
    matches_subject-new_owner,
  )

  update-IsGranted :
      (written : Option (List Entry)) (a : Attempt) (t : Tenant) (update : Answer)
      → find_dest_tenant not_found a.tenants ≡ got t
      → a.update ≡ update
      → after_update (t.spec_owners ++ new_owner caller ∷ []) update ≡ settled written
      → IsGranted caller written a
  update-IsGranted written a t fine found e done =
      let wrote : some (t.spec_owners ++ new_owner caller ∷ []) ≡ written = cc in
      subst (λ w. IsGranted caller w a) wrote
        (t, found, subject_listed-new_owner t.spec_owners, (new_owner caller ∷ [], refl), inr e)
  update-IsGranted written a t not_found found e done = cc
  update-IsGranted written a t forbidden found e done = cc
  update-IsGranted written a t method_not_supported found e done = cc
  update-IsGranted written a t already_exists found e done = cc
  update-IsGranted written a t conflict found e done = cc
  update-IsGranted written a t (failure s) found e done = cc

  on_tenant-IsGranted :
      (written : Option (List Entry)) (a : Attempt) (r : Read Tenant)
      → find_dest_tenant not_found a.tenants ≡ r
      → on_tenant caller a.update r ≡ settled written
      → IsGranted caller written a
  on_tenant-IsGranted written a (no answer) found done = cc
  on_tenant-IsGranted written a (got t) found done =
      elim (Bool-cases (subject_listed t.spec_owners caller)) [
        | inl listed ↦
            let same : none ≡ written = cc (done, listed) in
            subst (λ w. IsGranted caller w a) same
              (t, found, listed, ([], sym (append-nil t.spec_owners)), inl refl)
        | inr unlisted ↦ update-IsGranted written a t a.update found refl (rw unlisted at done)
      ]

  once-IsGranted :
      (written : Option (List Entry)) (a : Attempt)
      → ensure_tenant_spec_owner_once caller a ≡ settled written
      → IsGranted caller written a
  unfolding ensure_tenant_spec_owner_once
  once-IsGranted written a done = on_tenant-IsGranted written a _ refl done

or_again-settled :
    (r again : Attempted) (written : Option (List Entry))
    → or_again r again ≡ settled written
    → (r ≡ settled written) ⊎ (again ≡ settled written)
or_again-settled (settled w) again written h = inl h
or_again-settled (refused conflict) again written h = inr h
or_again-settled (refused fine) again written h = inl h
or_again-settled (refused not_found) again written h = inl h
or_again-settled (refused forbidden) again written h = inl h
or_again-settled (refused method_not_supported) again written h = inl h
or_again-settled (refused already_exists) again written h = inl h
or_again-settled (refused (failure s)) again written h = inl h

-- A loop that settles did so in one of its attempts, or was settled before.
abbrev IsSettledIn : Caller → (ℕ → Attempt) → Option (List Entry) → ℕ → ℕ → Type 0
IsSettledIn caller attempts written i left =
    (j : ℕ) × (j < i + left) × (ensure_tenant_spec_owner_once caller (attempts j) ≡ settled written)

ensure_from-settled :
    (caller : Caller) (attempts : ℕ → Attempt) (written : Option (List Entry)) (i left : ℕ)
    (last : Attempted)
    → ensure_from caller attempts i last left ≡ settled written
    → (last ≡ settled written) ⊎ IsSettledIn caller attempts written i left
unfolding ensure_from
ensure_from-settled caller attempts written i zero last h = inl h
ensure_from-settled caller attempts written i (suc left) last h =
    let result = ensure_tenant_spec_owner_once caller (attempts i) in
    elim (or_again-settled result (ensure_from caller attempts (i + 1) result left) written h) [
      | inl here ↦ inr (i, omega arith, here)
      | inr later ↦ elim (ensure_from-settled caller attempts written (i + 1) left result later) [
        | inl here ↦ inr (i, omega arith, here)
        | inr (j, below, there) ↦ inr (j, omega arith, there)
      ]
    ]

ensure_from-settled_suc :
    (caller : Caller) (attempts : ℕ → Attempt) (written : Option (List Entry)) (i left : ℕ)
    (last : Attempted)
    → ensure_from caller attempts i last (suc left) ≡ settled written
    → IsSettledIn caller attempts written i (suc left)
unfolding ensure_from
ensure_from-settled_suc caller attempts written i left last h =
    let result = ensure_tenant_spec_owner_once caller (attempts i) in
    elim (or_again-settled result (ensure_from caller attempts (i + 1) result left) written h) [
      | inl here ↦ (i, omega arith, here)
      | inr later ↦ elim (ensure_from-settled caller attempts written (i + 1) left result later) [
        | inl here ↦ (i, omega arith, here)
        | inr (j, below, there) ↦ (j, omega arith, there)
      ]
    ]

-- A registration in `spec.owners` that ends without an error did so in one of four attempts: it found
-- the Tenant, whose owners then list the caller, all those from before are kept in order, and
-- nothing was written or the update was accepted. The caller is a user or a service account with a
-- name.
pub ensure_tenant_spec_owner-IsGranted :
    (caller : Caller) (attempts : ℕ → Attempt) (written : Option (List Entry))
    → IsSubject caller
    → ensure_tenant_spec_owner caller attempts ≡ settled written
    → (j : ℕ) × (j < 4) × IsGranted caller written (attempts j)
unfolding ensure_tenant_spec_owner
ensure_tenant_spec_owner-IsGranted caller attempts written subject h =
    let (j, below, done) = ensure_from-settled_suc caller attempts written 0 3 (settled none) h in
    (j, below, once-IsGranted caller subject written (attempts j) done)
