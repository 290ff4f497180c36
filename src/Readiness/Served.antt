-- ===== src/Readiness/Served.antt =====
-- A ready workload, and the pod that serves it.
use mathlib.Core.Path.{subst}
use mathlib.Core.Option.{some-injective}
use portage.Base.{
  String, is_some, ap, ◌∙◌, ◌==◌, ◌≡◌, refl, ◌↔◌, inl, inr, Bool, true, false, not, ◌&&◌, ◌⊎◌, ◌<>◌,
  map, keep, Bool-cases, ◌||◌, Option, none, some, List, [], ◌∷◌, Some, arith, any, if◌then◌else◌,
  Fallible, ok, err,
}
use portage.Classify.{Workload}
use portage.Classify.Pods.{seen}
use portage.Readiness.{
  Answers, Pod, Found, is_pod_ready, container_name, list_pods, of_pods, ready, first_ready,
  or_first, among_pods, first_ready_pod, ReplicaSet, owned_by, pod_owned_by, owners_of, among,
  on_pods, with_sets,
}

-- A workload whose readiness is that of its pods.
abbrev pub counts_pods : Workload → Bool
counts_pods w = not (w.kind == "StatefulSet" || w.kind == "Deployment" || w.kind == "DaemonSet")

-- What is found, by the pods of the workload: without an error a ready pod of the list and its first
-- container.
abbrev pub IsServed : Fallible (List Pod) → Found → Type 0
IsServed (err e) found = found ≡ (none, some e)
IsServed (ok pods) (none, none) = ⊥
IsServed (ok pods) (none, some e) = pods ≡ []
IsServed (ok pods) (some (p, c), none) =
    Some (λ q. q ≡ p) pods × ((is_pod_ready p ≡ true) × (c ≡ container_name p))
IsServed (ok pods) (some (p, c), some e) =
    (any is_pod_ready pods ≡ false) × (Some (λ q. q ≡ p) pods × (c ≡ container_name p))

first_ready-some :
    (pods : List Pod) (p : Pod)
    → first_ready pods ≡ some p
    → Some (λ q. q ≡ p) pods × (is_pod_ready p ≡ true)
unfolding first_ready
first_ready-some [] p eq = ground (arith, eq)
first_ready-some (q ∷ pods) p eq = by_ready (first_ready-some pods p) (is_pod_ready q) refl eq
  where
    by_ready :
        (first_ready pods ≡ some p → Some (λ r. r ≡ p) pods × (is_pod_ready p ≡ true))
        → (b : Bool) → is_pod_ready q ≡ b
        → (if not b then first_ready pods else some q) ≡ some p
        → Some (λ r. r ≡ p) (q ∷ pods) × (is_pod_ready p ≡ true)
    by_ready later true here found =
        let same : q ≡ p = some-injective q p found in
        (inl same, subst (λ r. is_pod_ready r ≡ true) same here)
    by_ready later false other found = let (there, fine) = later found in (inr there, fine)

first_ready-any : (pods : List Pod) → any is_pod_ready pods ≡ is_some (first_ready pods)
unfolding first_ready
first_ready-any [] = refl
first_ready-any (q ∷ pods) = ground (arith, first_ready-any pods)

or_first-IsServed :
    (w : Workload) (pods : List Pod) (o : Option Pod)
    → first_ready pods ≡ o
    → IsServed (ok pods) (or_first w pods o)
or_first-IsServed w pods (some p) eq =
    let (there, fine) = first_ready-some pods p eq in (there, (fine, refl))
or_first-IsServed w [] none eq = refl
or_first-IsServed w (p ∷ pods) none eq =
    (first_ready-any (p ∷ pods) ∙ ap is_some eq, (inl refl, refl))

among_pods-IsServed : (w : Workload) (r : Fallible (List Pod)) → IsServed r (among_pods w r)
among_pods-IsServed w (err e) = refl
among_pods-IsServed w (ok pods) = or_first-IsServed w pods (first_ready pods) refl

or_first-eq-none_iff :
    (w : Workload) (pods : List Pod) (o : Option Pod)
    → (is_some o ≡ true) ↔ ((or_first w pods o).1 ≡ none)
or_first-eq-none_iff w pods (some p) = ground arith
or_first-eq-none_iff w [] none = ground arith
or_first-eq-none_iff w (p ∷ pods) none = ground arith

of_pods-ok_iff :
    (w : Workload) (r : Fallible (List Pod)) → (of_pods r ≡ ok true) ↔ ((among_pods w r).1 ≡ none)
of_pods-ok_iff w (err e) = ground arith
of_pods-ok_iff w (ok pods) =
    ground (arith, first_ready-any pods, or_first-eq-none_iff w pods (first_ready pods))

-- The name is the workload's or, for a Deployment, that of a ReplicaSet that the Deployment owns.
abbrev pub IsOwner : Workload → List ReplicaSet → String → Type 0
IsOwner w sets o =
    ((w.name == o) ≡ true)
    ⊎ (((w.kind == "Deployment") ≡ true)
        × Some
            (λ rs.
              ((rs.name == o) ≡ true)
              × Some (λ (kind, name). ((kind == "Deployment") ≡ true) × ((name == w.name) ≡ true))
                  rs.owners)
            sets)

abbrev pub IsOwned : Workload → List ReplicaSet → Pod → Type 0
IsOwned w sets p = Some (IsOwner w sets) p.owners

-- The pods are those of the namespace that the workload owns, all of them.
abbrev pub AreOwned : Workload → List ReplicaSet → List Pod → List Pod → Type 0
AreOwned w sets all pods =
    (p : Pod) → Some (λ q. q ≡ p) pods ↔ (Some (λ q. q ≡ p) all × IsOwned w sets p)

-- What the workload's pods are, by the two lists: an error of one of them, that of the ReplicaSets
-- for a Deployment only.
abbrev pub IsListed :
    Workload → Fallible (List Pod) → Fallible (List ReplicaSet) → Fallible (List Pod) → Type 0
IsListed w (err e) sets r = r ≡ err ("list pods in " <> w.namespace <> ": " <> e)
IsListed w (ok all) (err e) (err f) = ((w.kind == "Deployment") ≡ true) × (f ≡ e)
IsListed w (ok all) (err e) (ok pods) = ((w.kind == "Deployment") ≡ false) × AreOwned w [] all pods
IsListed w (ok all) (ok sets) (err f) = ⊥
IsListed w (ok all) (ok sets) (ok pods) = AreOwned w sets all pods

owner_iff :
    (w : Workload) (o : String) (sets : List ReplicaSet)
    → (seen o (map (λ rs. rs.name) (keep (owned_by "Deployment" w.name) sets)) ≡ true)
      ↔ Some
          (λ rs.
            ((rs.name == o) ≡ true)
            × Some
                (λ (kind, name). ((kind == "Deployment") ≡ true) × ((name == w.name) ≡ true))
                rs.owners)
          sets
unfolding owned_by
owner_iff w o [] = ground arith
owner_iff w o (rs ∷ sets) =
    let later = owner_iff w o sets in
    let owner = owners_iff w rs.owners in
    elim (Bool-cases (owned_by "Deployment" w.name rs)) [
      | inl mine ↦ rw mine (ground (arith, later, owner.0 mine))
      | inr other ↦ rw other (ground (arith, later, owner, other))
    ]
  where
    owners_iff :
        (w : Workload) (os : List (String × String))
        → (any (λ (k, n). k == "Deployment" && n == w.name) os ≡ true)
          ↔ Some (λ (kind, name). ((kind == "Deployment") ≡ true) × ((name == w.name) ≡ true)) os
    owners_iff w [] = ground arith
    owners_iff w ((k, n) ∷ os) = ground (arith, owners_iff w os)

not_both : (b : Bool) → b ≡ false → b ≡ true → ⊥
not_both b h k = ground (arith, h, k)

keep_iff :
    (test : Pod → Bool) (all : List Pod) (p : Pod)
    → Some (λ q. q ≡ p) (keep test all) ↔ (Some (λ q. q ≡ p) all × (test p ≡ true))
keep_iff test [] p = ((λ h. absurd h), (λ (h, _). absurd h))
keep_iff test (q ∷ all) p = elim (Bool-cases (test q)) [
  | inl fits ↦ rw fits (
    (λ h. elim h [
      | inl same ↦ (inl same, subst (λ x. test x ≡ true) same fits)
      | inr later ↦ let (a, b) = (keep_iff test all p).0 later in (inr a, b)
    ]),
    (λ (h, passes). elim h [
      | inl same ↦ inl same
      | inr later ↦ inr ((keep_iff test all p).1 (later, passes))
    ]),
  )
  | inr fails ↦ rw fails (
    (λ later. let (a, b) = (keep_iff test all p).0 later in (inr a, b)),
    (λ (h, passes). elim h [
      | inl same ↦ absurd (not_both (test p) (subst (λ x. test x ≡ false) same fails) passes)
      | inr later ↦ (keep_iff test all p).1 (later, passes)
    ]),
  )
]

or_iff :
    {A : Type 0} {B : Type 0} {b c : Bool}
    → (b ≡ true) ↔ A
    → (c ≡ true) ↔ B
    → ((b || c) ≡ true) ↔ (A ⊎ B)
or_iff h k = ground (arith, h, k)

pod_owned_by_iff :
    (w : Workload) (sets : List ReplicaSet) (names : List String) (p : Pod)
    → ((o : String) → (seen o names ≡ true) ↔ IsOwner w sets o)
    → (pod_owned_by names p ≡ true) ↔ IsOwned w sets p
unfolding pod_owned_by
pod_owned_by_iff w sets names p each = go p.owners
  where
    go : (os : List String) → (any (λ o. seen o names) os ≡ true) ↔ Some (IsOwner w sets) os
    go [] = ground arith
    go (o ∷ os) = or_iff (each o) (go os)

AreOwned-keep :
    (w : Workload) (sets : List ReplicaSet) (all : List Pod) (names : List String)
    → ((p : Pod) → (pod_owned_by names p ≡ true) ↔ IsOwned w sets p)
    → AreOwned w sets all (keep (pod_owned_by names) all)
AreOwned-keep w sets all names h p =
    let (a, b) = keep_iff (pod_owned_by names) all p in
    let (c, d) = h p in ((λ x. let (y, z) = a x in (y, c z)), (λ (y, z). b (y, d z)))

list_pods-IsListed : (a : Answers) (w : Workload) → IsListed w a.pods a.replica_sets (list_pods a w)
unfolding list_pods owners_of
list_pods-IsListed a w = by_pods a.pods
  where
    names : List ReplicaSet → List String
    names sets = w.name ∷ map (λ rs. rs.name) (keep (owned_by "Deployment" w.name) sets)

    by_sets :
        (all : List Pod) (r : Fallible (List ReplicaSet))
        → (w.kind == "Deployment") ≡ true
        → IsListed w (ok all) r (among all (with_sets w r))
    by_sets all (err e) deployment = (deployment, refl)
    by_sets all (ok sets) deployment = AreOwned-keep w sets all (names sets) (λ p.
        pod_owned_by_iff w sets (names sets) p
          (λ o. let named = owner_iff w o sets in ground (arith, named, deployment)))

    alone :
        (all : List Pod) (r : Fallible (List ReplicaSet))
        → (w.kind == "Deployment") ≡ false
        → IsListed w (ok all) r (ok (keep (pod_owned_by (w.name ∷ [])) all))
    alone all (err e) other = (
      other,
      AreOwned-keep w [] all (w.name ∷ [])
          (λ p. pod_owned_by_iff w [] (w.name ∷ []) p (λ o. ground (arith, other))),
    )
    alone all (ok sets) other =
        AreOwned-keep w sets all (w.name ∷ [])
          (λ p. pod_owned_by_iff w sets (w.name ∷ []) p (λ o. ground (arith, other)))

    by_pods : (r : Fallible (List Pod)) → IsListed w r a.replica_sets (on_pods a w r)
    by_pods (err e) = refl
    by_pods (ok all) = elim (Bool-cases (w.kind == "Deployment")) [
      | inl deployment ↦ rw deployment (by_sets all a.replica_sets deployment)
      | inr other ↦ rw other (alone all a.replica_sets other)
    ]

-- The pods that are listed are exactly those of the namespace with an owner of the workload's name
-- or, for a Deployment, of the name of a ReplicaSet that the Deployment owns, and an error of one of
-- the two lists is passed on. The pod that is found is one of them: without an error a ready one with
-- its first container. Where no ready pod is found there is an error, and a pod of the list comes with
-- it if there is one. A workload that is no StatefulSet, Deployment or DaemonSet is ready exactly if a
-- ready pod is found.
pub first_ready_pod-IsServed :
    (a : Answers) (w : Workload)
    → IsListed w a.pods a.replica_sets (list_pods a w)
      × (IsServed (list_pods a w) (first_ready_pod a w)
          × (counts_pods w ≡ true → (ready a w ≡ ok true) ↔ ((first_ready_pod a w).1 ≡ none)))
unfolding first_ready_pod ready
first_ready_pod-IsServed a w = (
  list_pods-IsListed a w,
  (
    among_pods-IsServed w (list_pods a w),
    λ other. ground (arith, other, of_pods-ok_iff w (list_pods a w)),
  ),
)
