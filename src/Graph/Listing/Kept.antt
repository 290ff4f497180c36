-- ===== src/Graph/Listing/Kept.antt =====
-- What `List` of pkg/clusterobjects/graph.go keeps, and what it fails on.
use portage.Base.{
  String, ◌==◌, ◌≡◌, refl, ◌⊎◌, inl, inr, Bool, true, false, not, ◌&&◌, List, [], ◌∷◌, ◌++◌, map,
  keep, if◌then◌else◌, All, All-imp, All-append, Some, Some-append_left, Some-append_right,
  Bool-cases, arith, ok, ok-injective, err-ok, of_bind,
}
use mathlib.Core.Path.{subst}
use portage.Graph.{Ref}
use portage.Graph.Discover.{ClusterObjectsSpec}
use portage.Graph.Listing.Portable.{
  IsPortable, IsLeft, IsClosed, IsOpenNamespace, test, test-IsPortable, test-IsLeft,
  skipped_ns-true, skipped_ns-false,
}
use portage.Graph.Listing.{
  Object, Listed, Reply, objects, refused, skip_list_error, forbidden_capsule_tenant, Source,
  ListError, forbidden, not_found, method_not_supported, failure, skipped_ns, item_of, of_all,
  of_within, list_within, list_ref, list_refs,
}

abbrev pub Has : List Listed → Listed → Type 0
Has items it = Some (λ x. x ≡ it) items

split_if {ℓ} :
    {A : Type ℓ} (b : Bool) (x y : A) {z : A}
    → (if b then x else y) ≡ z
    → ((b ≡ true) × (x ≡ z)) ⊎ ((b ≡ false) × (y ≡ z))
split_if true x y e = inl (refl, e)
split_if false x y e = inr (refl, e)

module _ (source : Source) (spec : ClusterObjectsSpec) (namespaces : List String) where
  -- An error that is passed over: none but that a resource is forbidden, not found or cannot be listed,
  -- and over the cluster no forbidden list of Capsule's tenants.
  abbrev pub IsPassed : Bool → Ref → ListError → Type 0
  IsPassed within ref (failure e) = ⊥
  IsPassed within ref forbidden =
      (within ≡ true)
      ⊎ (((ref.group == "capsule.clastix.io") ≡ false) ⊎ ((ref.resource == "tenants") ≡ false))
  IsPassed within ref _ = Unit

  -- The reply to a list call, within a namespace or over the cluster, is in the items: every object
  -- but those that are left, or the error is passed over.
  abbrev pub IsTaken : Bool → List Listed → Ref → Reply → Type 0
  IsTaken within items ref (objects os) =
      All
        (λ o.
          IsLeft spec namespaces within ref o ⊎ Has items (item_of source spec namespaces ref o))
        os
  IsTaken within items ref (refused e) = IsPassed within ref e

  -- The item is an object of the reply that may be copied.
  abbrev pub IsFrom : Bool → Ref → Reply → Listed → Type 0
  IsFrom within ref (objects os) it =
      Some
        (λ o. (item_of source spec namespaces ref o ≡ it) × IsPortable spec namespaces within ref o)
        os
  IsFrom within ref (refused e) it = ⊥

  abbrev Grows : List Listed → List Listed → Type 0
  Grows a b = (it : Listed) → Has a it → Has b it

  IsTaken-Grows :
      (within : Bool) (a b : List Listed) (ref : Ref) (r : Reply)
      → Grows a b
      → IsTaken within a ref r
      → IsTaken within b ref r
  IsTaken-Grows within a b ref (objects os) grows h =
      All-imp _ _
        (λ o h. elim h [
          | inl out ↦ inl out
          | inr has ↦ inr (grows (item_of source spec namespaces ref o) has)
        ])
        os h
  IsTaken-Grows within a b ref (refused e) grows h = h

  -- What is known of the items of one reply.
  record IsAnswered (within : Bool) (ref : Ref) (r : Reply) (items : List Listed) : Type 0 where
    taken : IsTaken within items ref r
    portable : All (IsFrom within ref r) items

  kept : Bool → Ref → List Object → List Listed
  kept within ref os =
      map (item_of source spec namespaces ref) (keep (test spec namespaces source within ref) os)

  kept-true :
      (within : Bool) (ref : Ref) (o : Object) (os : List Object)
      → test spec namespaces source within ref o ≡ true
      → item_of source spec namespaces ref o ∷ kept within ref os ≡ kept within ref (o ∷ os)
  unfolding kept
  kept-true within ref o os h = rw h

  kept-false :
      (within : Bool) (ref : Ref) (o : Object) (os : List Object)
      → test spec namespaces source within ref o ≡ false
      → kept within ref os ≡ kept within ref (o ∷ os)
  unfolding kept
  kept-false within ref o os h = rw h

  kept-IsTaken :
      (within : Bool) (ref : Ref) (os : List Object)
      → IsTaken within (kept within ref os) ref (objects os)
  kept-IsTaken within ref [] = tt
  kept-IsTaken within ref (o ∷ os) = elim (Bool-cases (test spec namespaces source within ref o)) [
    | inl passes ↦
        subst (λ ks. IsTaken within ks ref (objects (o ∷ os))) (kept-true within ref o os passes)
          (
            inr (inl refl),
            IsTaken-Grows within (kept within ref os)
                (item_of source spec namespaces ref o ∷ kept within ref os) ref (objects os)
                (λ it h. inr h) (kept-IsTaken within ref os),
          )
    | inr fails ↦
        subst (λ ks. IsTaken within ks ref (objects (o ∷ os))) (kept-false within ref o os fails)
          (inl (test-IsLeft spec namespaces source within ref o fails), kept-IsTaken within ref os)
  ]

  kept-portable :
      (within : Bool) (ref : Ref) (os : List Object)
      → All (IsFrom within ref (objects os)) (kept within ref os)
  unfolding kept
  kept-portable within ref [] = tt
  kept-portable within ref (o ∷ os) =
      let later =
        All-imp _ (IsFrom within ref (objects (o ∷ os))) (λ it h. inr h) _
          (kept-portable within ref os) in
      elim (Bool-cases (test spec namespaces source within ref o)) [
        | inl passes ↦
            rw passes
              (inl (refl, test-IsPortable spec namespaces source within ref o passes), later)
        | inr fails ↦ rw fails later
      ]

  kept-IsAnswered :
      (within : Bool) (ref : Ref) (os : List Object)
      → IsAnswered within ref (objects os) (kept within ref os)
  kept-IsAnswered within ref os = record {
    taken = kept-IsTaken within ref os;
    portable = kept-portable within ref os;
  }

  wide-IsPassed :
      (ref : Ref) (e : ListError)
      → (skip_list_error e && not (forbidden_capsule_tenant ref e)) ≡ true
      → IsPassed false ref e
  wide-IsPassed ref forbidden h = ground (arith, h)
  wide-IsPassed ref not_found h = tt
  wide-IsPassed ref method_not_supported h = tt
  wide-IsPassed ref (failure e) h = cc

  within-IsPassed : (ref : Ref) (e : ListError) → skip_list_error e ≡ true → IsPassed true ref e
  within-IsPassed ref forbidden h = inl refl
  within-IsPassed ref not_found h = tt
  within-IsPassed ref method_not_supported h = tt
  within-IsPassed ref (failure e) h = cc

  of_all-IsAnswered :
      (ref : Ref) (r : Reply) (items : List Listed)
      → of_all source spec namespaces ref r ≡ ok items
      → IsAnswered false ref r items
  unfolding of_all kept
  of_all-IsAnswered ref (objects os) items done =
      subst (IsAnswered false ref (objects os)) (ok-injective done) (kept-IsAnswered false ref os)
  of_all-IsAnswered ref (refused e) items done =
      elim (Bool-cases (skip_list_error e && not (forbidden_capsule_tenant ref e))) [
        | inl skipped ↦
            subst (IsAnswered false ref (refused e)) (ok-injective (rw skipped at done))
              (record { taken = wide-IsPassed ref e skipped; portable = tt })
        | inr fails ↦ absurd (err-ok (rw fails at done))
      ]

  of_within-IsAnswered :
      (ref : Ref) (r : Reply) (items : List Listed)
      → of_within source spec namespaces ref r ≡ ok items
      → IsAnswered true ref r items
  unfolding of_within kept
  of_within-IsAnswered ref (objects os) items done =
      subst (IsAnswered true ref (objects os)) (ok-injective done) (kept-IsAnswered true ref os)
  of_within-IsAnswered ref (refused e) items done = elim (Bool-cases (skip_list_error e)) [
    | inl skipped ↦
        subst (IsAnswered true ref (refused e)) (ok-injective (rw skipped at done))
          (record { taken = within-IsPassed ref e skipped; portable = tt })
    | inr fails ↦ absurd (err-ok (rw fails at done))
  ]

  -- Every namespace that is not skipped is listed.
  abbrev pub AreTaken : List Listed → Ref → List String → Type 0
  AreTaken items ref nss =
      All (λ ns. IsClosed spec namespaces ns ⊎ IsTaken true items ref (source.within ref ns)) nss

  AreTaken-Grows :
      (a b : List Listed) (ref : Ref) (nss : List String)
      → Grows a b
      → AreTaken a ref nss
      → AreTaken b ref nss
  AreTaken-Grows a b ref nss grows h =
      All-imp _ _
        (λ ns h. elim h [
          | inl out ↦ inl out
          | inr has ↦ inr (IsTaken-Grows true a b ref (source.within ref ns) grows has)
        ])
        nss h

  -- The item is an object of a namespace of the list that is not closed.
  abbrev pub IsFromOne : Ref → List String → Listed → Type 0
  IsFromOne ref nss it =
      Some (λ ns. IsOpenNamespace spec namespaces ns × IsFrom true ref (source.within ref ns) it)
        nss

  record IsWithin (ref : Ref) (nss : List String) (items : List Listed) : Type 0 where
    taken : AreTaken items ref nss
    portable : All (IsFromOne ref nss) items

  list_within-IsWithin :
      (ref : Ref) (nss : List String) (items : List Listed)
      → list_within source spec namespaces ref nss ≡ ok items
      → IsWithin ref nss items
  unfolding list_within
  list_within-IsWithin ref [] items done =
      subst (IsWithin ref []) (ok-injective done) (record { taken = tt; portable = tt })
  list_within-IsWithin ref (ns ∷ nss) items done =
      elim (Bool-cases (skipped_ns source spec namespaces ns)) [
        | inl out ↦
            let rest = list_within-IsWithin ref nss items (rw out at done) in
            record {
              taken = (inl (skipped_ns-true spec namespaces source ns out), rest.taken);
              portable = All-imp _ (IsFromOne ref (ns ∷ nss)) (λ it h. inr h) items rest.portable;
            }
        | inr kept ↦
            let (here, first, done) =
              of_bind (of_within source spec namespaces ref (source.within ref ns)) _
                (rw kept at done) in
            let (others, second, done) =
              of_bind (list_within source spec namespaces ref nss) (λ rest. ok (here ++ rest))
                done in
            let a = of_within-IsAnswered ref (source.within ref ns) here first in
            let b = list_within-IsWithin ref nss others second in
            subst (IsWithin ref (ns ∷ nss)) (ok-injective done) (record {
              taken = (
                inr (
                    IsTaken-Grows true here (here ++ others) ref (source.within ref ns)
                      (λ it h. Some-append_left _ here others h) a.taken),
                AreTaken-Grows others (here ++ others) ref nss
                    (λ it h. Some-append_right (λ x. x ≡ it) here others h) b.taken,
              );
              portable =
                  All-append (IsFromOne ref (ns ∷ nss)) here others
                    (All-imp _ (IsFromOne ref (ns ∷ nss))
                      (λ it h. inl (skipped_ns-false spec namespaces source ns kept, h)) here
                      a.portable)
                    (All-imp _ (IsFromOne ref (ns ∷ nss)) (λ it h. inr h) others b.portable);
            })
      ]

  -- All that the source has of a resource is in the items.
  abbrev pub IsCopied : List Listed → Ref → Type 0
  IsCopied items ref =
      ((ref.namespaced ≡ true) × AreTaken items ref namespaces)
      ⊎ ((ref.namespaced ≡ false) × IsTaken false items ref (source.all ref))

  -- The item is an object that may be copied, of the resource: of a namespace that was asked for and
  -- is not closed, or of the cluster.
  abbrev pub IsListed : Ref → Listed → Type 0
  IsListed ref it =
      ((ref.namespaced ≡ true) × IsFromOne ref namespaces it)
      ⊎ ((ref.namespaced ≡ false) × IsFrom false ref (source.all ref) it)

  IsCopied-Grows : (a b : List Listed) (ref : Ref) → Grows a b → IsCopied a ref → IsCopied b ref
  IsCopied-Grows a b ref grows (inl (scoped, h)) =
      inl (scoped, AreTaken-Grows a b ref namespaces grows h)
  IsCopied-Grows a b ref grows (inr (wide, h)) =
      inr (wide, IsTaken-Grows false a b ref (source.all ref) grows h)

  list_ref-IsCopied :
      (ref : Ref) (items : List Listed)
      → list_ref source spec namespaces ref ≡ ok items
      → IsCopied items ref × All (IsListed ref) items
  unfolding list_ref
  list_ref-IsCopied ref items done =
      elim (split_if ref.namespaced (list_within source spec namespaces ref namespaces) _ done) [
        | inl (scoped, done) ↦
            let r = list_within-IsWithin ref namespaces items done in
            (
              inl (scoped, r.taken),
              All-imp _ (IsListed ref) (λ it h. inl (scoped, h)) items r.portable,
            )
        | inr (wide, done) ↦
            let r = of_all-IsAnswered ref (source.all ref) items done in
            (inr (wide, r.taken), All-imp _ (IsListed ref) (λ it h. inr (wide, h)) items r.portable)
      ]

  -- A listing that succeeds has exactly what it is to have. Every item is an object that the source
  -- has of one of the resources that were given: of a namespace that was asked for and is none of
  -- Kubernetes itself and not excluded, or, if the resource has no namespaces, of the cluster. The
  -- spec does not exclude the object, a cluster does not have it of its own (the root certificate,
  -- tokens of service accounts, the API's service, this program's CRDs, built-in roles), and a
  -- Namespace is one that was asked for and not closed. All other objects of these resources are
  -- items. The only errors that are passed over say that a resource is forbidden, not found or cannot
  -- be listed, and a forbidden list of Capsule's tenants over the cluster is not.
  pub list_refs-IsCopied :
      (refs : List Ref) (items : List Listed)
      → list_refs source spec namespaces refs ≡ ok items
      → All (IsCopied items) refs × All (λ it. Some (λ ref. IsListed ref it) refs) items
  unfolding list_refs
  list_refs-IsCopied [] items done =
      subst (λ xs. All (IsCopied xs) [] × All (λ it. Some (λ r. IsListed r it) []) xs)
        (ok-injective done) (tt, tt)
  list_refs-IsCopied (ref ∷ refs) items done =
      let (here, first, done) = of_bind (list_ref source spec namespaces ref) _ done in
      let (others, second, done) =
        of_bind (list_refs source spec namespaces refs) (λ rest. ok (here ++ rest)) done in
      let (copied, portable) = list_ref-IsCopied ref here first in
      let (all_copied, all_portable) = list_refs-IsCopied refs others second in
      subst
        (λ xs.
          All (IsCopied xs) (ref ∷ refs) × All (λ it. Some (λ r. IsListed r it) (ref ∷ refs)) xs)
        (ok-injective done)
        (
          (
            IsCopied-Grows here (here ++ others) ref (λ it h. Some-append_left _ here others h)
                copied,
            All-imp _ _
                (λ r h.
                  IsCopied-Grows others (here ++ others) r
                    (λ it h. Some-append_right (λ x. x ≡ it) here others h) h)
                refs all_copied,
          ),
          All-append (λ it. Some (λ r. IsListed r it) (ref ∷ refs)) here others
              (All-imp _ _ (λ it h. inl h) here portable)
              (All-imp _ _ (λ it h. inr h) others all_portable),
        )
