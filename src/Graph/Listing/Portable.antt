-- ===== src/Graph/Listing/Portable.antt =====
-- pkg/clusterobjects/graph.go: which objects `List` is to copy, said without its tests.
use portage.Base.{
  String, ◌==◌, ◌≡◌, refl, ◌⊎◌, ◌↔◌, inl, inr, Bool, true, false, not, ◌&&◌, ◌||◌, List, [], ◌∷◌,
  any, All, Some, Bool-cases, arith, has_prefix, has_suffix, any_iff, if◌then◌else◌,
}
use portage.Graph.{Ref}
use portage.Graph.Discover.{ClusterObjectsSpec, listed}
use portage.Graph.Listing.{Object, excluded_obj, skip_obj, Source, skipped_ns, takes}

-- The object is one that a cluster has of its own: the certificate of its root, a token of a service
-- account, the service of its API, a CRD of this program, or a role that it comes with.
abbrev pub IsOwn : Ref → Object → Type 0
IsOwn ref o =
    ((o.name == "kube-root-ca.crt") ≡ true)
    ⊎ ((((ref.resource == "secrets") ≡ true)
          × ((o.secret_type == "kubernetes.io/service-account-token") ≡ true))
        ⊎ ((((ref.resource == "services") ≡ true)
              × (((o.name == "kubernetes") ≡ true) × ((o.namespace == "default") ≡ true)))
            ⊎ ((((ref.resource == "customresourcedefinitions") ≡ true)
                  × (has_suffix o.name ".portage.io" ≡ true))
                ⊎ ((((ref.resource == "clusterroles") ≡ true)
                      ⊎ ((ref.resource == "clusterrolebindings") ≡ true))
                    × ((has_prefix o.name "system:" ≡ true)
                        ⊎ ((has_prefix o.name "kubeadm:" ≡ true)
                            ⊎ Some (λ n. (n == o.name) ≡ true)
                                ("cluster-admin" ∷ "admin" ∷ "edit" ∷ "view" ∷ [])))))))

not_both : (b : Bool) → b ≡ false → b ≡ true → ⊥
not_both b h k = ground (arith, h, k)

neither : {b c : Bool} → (b ≡ true → c ≡ true) → c ≡ false → b ≡ false
neither h k = ground (arith, h, k)

eq_iff_self : {b : Bool} → (b ≡ true) ↔ (b ≡ true)
eq_iff_self = ((λ h. h), (λ h. h))

or_iff :
    {A : Type 0} {B : Type 0} {b c : Bool}
    → (b ≡ true) ↔ A
    → (c ≡ true) ↔ B
    → ((b || c) ≡ true) ↔ (A ⊎ B)
or_iff h k = ground (arith, h, k)

and_iff :
    {A : Type 0} {B : Type 0} {b c : Bool}
    → (b ≡ true) ↔ A
    → (c ≡ true) ↔ B
    → ((b && c) ≡ true) ↔ (A × B)
and_iff h k = ground (arith, h, k)

if_iff :
    {A : Type 0} {B : Type 0} {b c : Bool}
    → (b ≡ true) ↔ A
    → (c ≡ true) ↔ B
    → ((if b then true else c) ≡ true) ↔ (A ⊎ B)
if_iff h k = ground (arith, h, k)

or_assoc_iff :
    {A : Type 0} {B : Type 0} {C : Type 0} {b c d : Bool}
    → (b ≡ true) ↔ A
    → (c ≡ true) ↔ B
    → (d ≡ true) ↔ C
    → ((b || c || d) ≡ true) ↔ (A ⊎ (B ⊎ C))
or_assoc_iff h k l = ground (arith, h, k, l)

skip_obj_iff :
    (ref : Ref) (o : Object) (exclude : List String)
    → (skip_obj ref o exclude ≡ true) ↔ ((excluded_obj ref o exclude ≡ true) ⊎ IsOwn ref o)
unfolding skip_obj
skip_obj_iff ref o exclude = if_iff eq_iff_self (
    if_iff eq_iff_self (
      if_iff (and_iff eq_iff_self eq_iff_self) (
        if_iff (three ref o) (
          if_iff (and_iff eq_iff_self eq_iff_self)
            (and_iff (or_iff eq_iff_self eq_iff_self) (prefixes o))))))
  where
    three :
        (ref : Ref) (o : Object)
        → ((ref.resource == "services" && o.name == "kubernetes" && o.namespace == "default")
            ≡ true)
          ↔ (((ref.resource == "services") ≡ true)
              × (((o.name == "kubernetes") ≡ true) × ((o.namespace == "default") ≡ true)))
    three ref o = ground arith

    prefixes :
        (o : Object)
        → ((has_prefix o.name "system:"
              || has_prefix o.name "kubeadm:"
              || listed ("cluster-admin" ∷ "admin" ∷ "edit" ∷ "view" ∷ []) o.name)
            ≡ true)
          ↔ ((has_prefix o.name "system:" ≡ true)
              ⊎ ((has_prefix o.name "kubeadm:" ≡ true)
                  ⊎ Some
                      (λ n. (n == o.name) ≡ true)
                      ("cluster-admin" ∷ "admin" ∷ "edit" ∷ "view" ∷ [])))
    prefixes o =
        let roles = any_iff (λ n. n == o.name) ("cluster-admin" ∷ "admin" ∷ "edit" ∷ "view" ∷ []) in
        or_assoc_iff eq_iff_self eq_iff_self roles

skip_obj-false :
    (ref : Ref) (o : Object) (exclude : List String)
    → skip_obj ref o exclude ≡ false
    → (excluded_obj ref o exclude ≡ false) × (IsOwn ref o → ⊥)
skip_obj-false ref o exclude h =
    let known = skip_obj_iff ref o exclude in
    (
      neither (λ out. known.1 (inl out)) h,
      λ own. not_both (skip_obj ref o exclude) h (known.1 (inr own)),
    )

skip_obj-true :
    (ref : Ref) (o : Object) (exclude : List String)
    → skip_obj ref o exclude ≡ true
    → (excluded_obj ref o exclude ≡ true) ⊎ IsOwn ref o
skip_obj-true ref o exclude = (skip_obj_iff ref o exclude).0

guarded-true : (c s : Bool) → (if c then false else not s) ≡ true → (c ≡ false) × (s ≡ false)
guarded-true c s h = ground (arith, h)

guarded-false : (c s : Bool) → (if c then false else not s) ≡ false → s ≡ false → c ≡ true
guarded-false c s h k = ground (arith, h, k)

not-true : (b : Bool) → not b ≡ true → b ≡ false
not-true b h = ground (arith, h)

not-false : (b : Bool) → not b ≡ false → b ≡ true
not-false b h = ground (arith, h)

-- The guard on Namespaces.
unnamed : (r k l : Bool) → (r && (k || not l)) ≡ false → (r ≡ false) ⊎ ((k ≡ false) × (l ≡ true))
unnamed r k l h = ground (arith, h)

named : (r k l : Bool) → (r && (k || not l)) ≡ true → (r ≡ true) × ((k ≡ true) ⊎ (l ≡ false))
named r k l h = ground (arith, h)

not_all_false :
    {A : Type 0} (p : A → Bool) (xs : List A) → any p xs ≡ false → All (λ x. p x ≡ false) xs
not_all_false p [] h = tt
not_all_false p (x ∷ xs) h = (ground arith, not_all_false p xs (ground arith))

module _ (spec : ClusterObjectsSpec) (namespaces : List String) where
  -- A namespace of Kubernetes itself, or one that the spec excludes.
  abbrev pub IsClosed : String → Type 0
  IsClosed ns =
      Some (λ m. (m == ns) ≡ true) ("kube-system" ∷ "kube-public" ∷ "kube-node-lease" ∷ [])
      ⊎ Some (λ m. (m == ns) ≡ true) spec.exclude_namespaces

  abbrev pub IsOpenNamespace : String → Type 0
  IsOpenNamespace ns =
      All (λ m. (m == ns) ≡ false) ("kube-system" ∷ "kube-public" ∷ "kube-node-lease" ∷ [])
      × All (λ m. (m == ns) ≡ false) spec.exclude_namespaces

  -- What is copied: no object that the spec excludes or that a cluster has of its own and, where the
  -- list is of no one namespace, of the Namespaces only those that are asked for.
  abbrev pub IsPortable : Bool → Ref → Object → Type 0
  IsPortable within ref o =
      (excluded_obj ref o spec.exclude_gvks ≡ false)
      × ((IsOwn ref o → ⊥)
          × ((within ≡ true)
              ⊎ (((ref.resource == "namespaces") ≡ false)
                  ⊎ (IsOpenNamespace o.name × Some (λ n. (n == o.name) ≡ true) namespaces))))

  -- What is not.
  abbrev pub IsLeft : Bool → Ref → Object → Type 0
  IsLeft within ref o =
      (excluded_obj ref o spec.exclude_gvks ≡ true)
      ⊎ (IsOwn ref o
          ⊎ ((within ≡ false)
              × (((ref.resource == "namespaces") ≡ true)
                  × (IsClosed o.name ⊎ All (λ n. (n == o.name) ≡ false) namespaces))))

  module _ (source : Source) where
    pub skipped_ns-true : (ns : String) → skipped_ns source spec namespaces ns ≡ true → IsClosed ns
    skipped_ns-true ns h = ground (arith, h, any_iff (λ m. m == ns) spec.exclude_namespaces)

    pub skipped_ns-false :
        (ns : String) → skipped_ns source spec namespaces ns ≡ false → IsOpenNamespace ns
    skipped_ns-false ns h = (
      ground (arith, h),
      not_all_false (λ m. m == ns) spec.exclude_namespaces (ground (arith, h)),
    )

    abbrev pub test : Bool → Ref → Object → Bool
    test true ref o = not (skip_obj ref o spec.exclude_gvks)
    test false ref o = takes source spec namespaces ref o

    pub test-IsPortable :
        (within : Bool) (ref : Ref) (o : Object)
        → test within ref o ≡ true
        → IsPortable within ref o
    unfolding takes
    test-IsPortable true ref o h =
        let (a, b) = skip_obj-false ref o spec.exclude_gvks (not-true _ h) in (a, (b, inl refl))
    test-IsPortable false ref o h =
        let (guard, copied) = guarded-true _ (skip_obj ref o spec.exclude_gvks) h in
        let (a, b) = skip_obj-false ref o spec.exclude_gvks copied in (a, (b, inr (is_asked guard)))
      where
        is_asked :
            (ref.resource == "namespaces"
                && (skipped_ns source spec namespaces o.name || not (listed namespaces o.name)))
              ≡ false
            → ((ref.resource == "namespaces") ≡ false)
              ⊎ (IsOpenNamespace o.name × Some (λ n. (n == o.name) ≡ true) namespaces)
        is_asked guard = elim (unnamed _ (skipped_ns source spec namespaces o.name) _ guard) [
          | inl other ↦ inl other
          | inr (kept, asked) ↦
              inr (skipped_ns-false o.name kept, (any_iff (λ n. n == o.name) namespaces).0 asked)
        ]

    pub test-IsLeft :
        (within : Bool) (ref : Ref) (o : Object) → test within ref o ≡ false → IsLeft within ref o
    unfolding takes
    test-IsLeft true ref o h = elim (skip_obj-true ref o spec.exclude_gvks (not-false _ h)) [
      | inl out ↦ inl out
      | inr own ↦ inr (inl own)
    ]
    test-IsLeft false ref o h = elim (Bool-cases (skip_obj ref o spec.exclude_gvks)) [
      | inl skipped ↦ elim (skip_obj-true ref o spec.exclude_gvks skipped) [
        | inl out ↦ inl out
        | inr own ↦ inr (inl own)
      ]
      | inr copied ↦
          let (is_namespace, why) =
            named (ref.resource == "namespaces") (skipped_ns source spec namespaces o.name)
              (listed namespaces o.name)
              (guarded-false _ (skip_obj ref o spec.exclude_gvks) h copied) in
          inr (inr (refl, (is_namespace, unwanted why)))
    ]
      where
        unwanted :
            (skipped_ns source spec namespaces o.name ≡ true) ⊎ (listed namespaces o.name ≡ false)
            → IsClosed o.name ⊎ All (λ n. (n == o.name) ≡ false) namespaces
        unwanted (inl closed) = inl (skipped_ns-true o.name closed)
        unwanted (inr other) = inr (not_all_false (λ n. n == o.name) namespaces other)
