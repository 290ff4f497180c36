-- ===== src/Capsule/Union.antt =====
-- What an update keeps of the owners of a Tenant on the destination.
use mathlib.Core.List.{append-nil}
use portage.Base.{
  String, ◌==◌, ◌≡◌, refl, sym, ap, ◌∙◌, Bool, true, false, not, ◌||◌, Option, none, some, List, [],
  ◌∷◌, ◌++◌, All, any, any-append, arith, inl, inr, eq_iff, is_some, is_empty, has_prefix,
  if◌then◌else◌, Bool-cases,
}
use portage.Capsule.{
  Entry, Owned, owner_identity, same_identity, was_seen, see, seen_from, is_duplicate, added_from,
  merge_owners, keep_dest_tenant_owners,
}

-- Does an owner have the identity?
abbrev pub is_owner : String × String → Option (String × String) → Bool
is_owner key none = false
is_owner key (some own) = same_identity own key

-- The set of identities that a list of owners stands for.
abbrev pub has_owner : List Entry → String × String → Bool
has_owner es key = any (λ e. is_owner key (owner_identity e)) es

same_identity_trans :
    (a b c : String × String)
    → same_identity a b ≡ true
    → same_identity b c ≡ true
    → same_identity a c ≡ true
same_identity_trans (k, n) (k', n') (k'', n'') h g =
    ground
      (arith, eq_iff k k', eq_iff k' k'', eq_iff k k'', eq_iff n n', eq_iff n' n'', eq_iff n n'')

was_seen_trans :
    (seen : List (String × String)) (a b : String × String)
    → was_seen seen a ≡ true
    → same_identity a b ≡ true
    → was_seen seen b ≡ true
was_seen_trans [] a b h g = cc
was_seen_trans (other ∷ seen) a b h g =
    ground (arith, same_identity_trans other a b, was_seen_trans seen a b)

was_seen-see :
    (o : Option (String × String)) (seen : List (String × String)) (key : String × String)
    → was_seen (see o seen) key ≡ (is_owner key o || was_seen seen key)
was_seen-see none seen key = refl
was_seen-see (some own) seen key = refl

was_seen-seen_from :
    (seen : List (String × String)) (es : List Entry) (key : String × String)
    → was_seen (seen_from seen es) key ≡ (has_owner es key || was_seen seen key)
unfolding seen_from
was_seen-seen_from seen [] key = refl
was_seen-seen_from seen (e ∷ es) key = ground (
  arith,
  was_seen-seen_from (see (owner_identity e) seen) es key,
  was_seen-see (owner_identity e) seen key,
)

duplicate_seen :
    (o : Option (String × String)) (seen : List (String × String)) (key : String × String)
    → is_duplicate seen o ≡ true
    → is_owner key o ≡ true
    → was_seen seen key ≡ true
duplicate_seen none seen key h g = cc
duplicate_seen (some own) seen key h g = was_seen_trans seen own key h g

-- The identities of the appended owners, with those seen before, are those of the destination's.
has_owner-added_from :
    (seen : List (String × String)) (es : List Entry) (key : String × String)
    → (has_owner (added_from seen es) key || was_seen seen key)
      ≡ (has_owner es key || was_seen seen key)
unfolding added_from
has_owner-added_from seen [] key = refl
has_owner-added_from seen (e ∷ es) key = elim (Bool-cases (is_duplicate seen (owner_identity e))) [
  | inl dup ↦
      ground
        (arith, has_owner-added_from seen es key, duplicate_seen (owner_identity e) seen key dup)
  | inr fresh ↦ ground (
    arith,
    has_owner-added_from (see (owner_identity e) seen) es key,
    was_seen-see (owner_identity e) seen key,
  )
]

added_from_again :
    (seen : List (String × String)) (es : List Entry)
    → added_from seen (added_from seen es) ≡ added_from seen es
unfolding added_from
added_from_again seen [] = refl
added_from_again seen (e ∷ es) = elim (Bool-cases (is_duplicate seen (owner_identity e))) [
  | inl dup ↦ rw dup (added_from_again seen es)
  | inr fresh ↦
      rw fresh (rw fresh (ap (λ r. e ∷ r) (added_from_again (see (owner_identity e) seen) es)))
]

-- Owners that were all seen are not appended.
added_from-seen :
    (seen : List (String × String)) (es more : List Entry)
    → All (λ e. is_duplicate seen (owner_identity e) ≡ true) es
    → added_from seen (es ++ more) ≡ added_from seen more
unfolding added_from
added_from-seen seen [] more _ = refl
added_from-seen seen (e ∷ es) more (dup, rest) = rw dup (added_from-seen seen es more rest)

identity_seen :
    (seen : List (String × String)) (o : Option (String × String))
    → is_some o ≡ true
    → ((key : String × String) → is_owner key o ≡ true → was_seen seen key ≡ true)
    → is_duplicate seen o ≡ true
identity_seen seen none h f = cc
identity_seen seen (some (k, n)) h f = f (k, n) (ground (arith, eq_iff k k, eq_iff n n))

own-seen :
    (seen : List (String × String)) (es : List Entry)
    → ((key : String × String) → has_owner es key ≡ true → was_seen seen key ≡ true)
    → All (λ e. is_some (owner_identity e) ≡ true) es
    → All (λ e. is_duplicate seen (owner_identity e) ≡ true) es
own-seen seen [] f _ = tt
own-seen seen (e ∷ es) f (named, rest) = (
  identity_seen seen (owner_identity e) named (λ key h. f key (rw h refl)),
  own-seen seen es (λ key h. f key (ground (arith, h))) rest,
)

merge_owners_again :
    (owners current : List Entry)
    → All (λ e. is_some (owner_identity e) ≡ true) owners
    → merge_owners owners (merge_owners owners current) ≡ merge_owners owners current
unfolding merge_owners
merge_owners_again owners current named =
    let seen = seen_from [] owners in
    ap (λ more. owners ++ more)
      (added_from-seen seen owners (added_from seen current) (
          own-seen seen owners (λ key h. was_seen-seen_from [] owners key ∙ ground (arith, h))
            named)
        ∙ added_from_again seen current)

has_owner-merge_owners :
    (owners current : List Entry) (key : String × String)
    → has_owner (merge_owners owners current) key ≡ (has_owner owners key || has_owner current key)
unfolding merge_owners
has_owner-merge_owners owners current key = ground (
  arith,
  any-append (λ e. is_owner key (owner_identity e)) owners
      (added_from (seen_from [] owners) current),
  has_owner-added_from (seen_from [] owners) current key,
  was_seen-seen_from [] owners key,
)

-- An object of Capsule's kind Tenant.
abbrev pub IsTenant : Owned → Type 0
IsTenant obj = (obj.kind ≡ "Tenant") × (has_prefix obj.api_version "capsule.clastix.io/" ≡ true)

merge_owners-nil :
    (owners current : List Entry)
    → (if is_empty current then owners else merge_owners owners current)
      ≡ merge_owners owners current
unfolding merge_owners added_from
merge_owners-nil owners [] = sym (append-nil owners)
merge_owners-nil owners (e ∷ es) = refl

chosen :
    (a b c : Bool) (obj merged : Owned)
    → a ≡ true
    → b ≡ true
    → (if not a then obj else if not b then obj else if c then obj else merged).owners
      ≡ (if c then obj.owners else merged.owners)
chosen true true true obj merged _ _ = refl
chosen true true false obj merged _ _ = refl
chosen true false c obj merged _ h = cc
chosen false b c obj merged h _ = cc

keep_dest_tenant_owners-merge :
    (obj cur : Owned)
    → IsTenant obj
    → (keep_dest_tenant_owners obj cur).owners ≡ merge_owners obj.owners cur.owners
unfolding keep_dest_tenant_owners
keep_dest_tenant_owners-merge obj cur (kind, version) =
    chosen (obj.kind == "Tenant") (has_prefix obj.api_version "capsule.clastix.io/")
      (is_empty cur.owners) obj (record obj { owners = merge_owners obj.owners cur.owners })
      ((eq_iff obj.kind "Tenant").1 kind) version
    ∙ merge_owners-nil obj.owners cur.owners

-- An update of a Tenant writes the owners of the source, in order and unchanged, and appends to them:
-- the identities that it writes are those of the source and those of the destination, and no other.
pub keep_dest_tenant_owners-IsUnion :
    (obj cur : Owned)
    → IsTenant obj
    → ((key : String × String)
        → has_owner (keep_dest_tenant_owners obj cur).owners key
          ≡ (has_owner obj.owners key || has_owner cur.owners key))
      × ((more : List Entry) × ((keep_dest_tenant_owners obj cur).owners ≡ obj.owners ++ more))
unfolding merge_owners
keep_dest_tenant_owners-IsUnion obj cur tenant =
    let merged = keep_dest_tenant_owners-merge obj cur tenant in
    (
      λ key. ap (λ es. has_owner es key) merged ∙ has_owner-merge_owners obj.owners cur.owners key,
      (added_from (seen_from [] obj.owners) cur.owners, merged),
    )

-- A pass that finds on the destination what the last one wrote writes it again: the owners of a Tenant
-- do not grow from pass to pass. Every owner of the source has a kind and a name.
pub keep_dest_tenant_owners-again :
    (obj cur : Owned)
    → IsTenant obj
    → All (λ e. is_some (owner_identity e) ≡ true) obj.owners
    → (keep_dest_tenant_owners obj (keep_dest_tenant_owners obj cur)).owners
      ≡ (keep_dest_tenant_owners obj cur).owners
keep_dest_tenant_owners-again obj cur tenant named =
    let merged = keep_dest_tenant_owners-merge obj cur tenant in
    keep_dest_tenant_owners-merge obj (keep_dest_tenant_owners obj cur) tenant
    ∙ ap (merge_owners obj.owners) merged
    ∙ merge_owners_again obj.owners cur.owners named
    ∙ sym merged
