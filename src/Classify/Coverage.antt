-- ===== src/Classify/Coverage.antt =====
-- The inventory leaves no claim out.
use mathlib.Core.Path.{subst}
use portage.Base.{
  String, ◌<>◌, ◌==◌, ◌≡◌, refl, ◌⊎◌, inl, inr, Bool, true, false, Option, some, none, List, [],
  ◌∷◌, map, All, Some, Some-append_left, Some-append_right, any-append, arith, Fallible, ok, err,
  ok-injective, of_bind, of_context, ◌||◌, Bool-cases, eq_refl,
}
use portage.Kube.{PersistentVolumeClaim, StatefulSet, Controller}
use portage.Classify.{Workload}
use portage.Classify.Catalog.{Engine}
use portage.Classify.Pods.{from_pod_owner, classed, seen, is_mover_scratch_pvc}
use portage.Classify.Walk.{
  Lister, Found, claim, add_owner, add_owners, orphan, add_pvc, add_pvcs, of_sts, of_controller,
  take_lists, walk_ns, walk_from,
}

-- The claims of a workload, with its namespace.
abbrev pub claims : Workload → List String
claims w = map (claim w.namespace) w.pvc_names

-- Some workload holds the claim `k`.
abbrev pub Holds : String → List Workload → Type 0
Holds k ws = Some (λ w. seen k (claims w) ≡ true) ws

-- Whatever is marked as claimed is held.
abbrev pub IsTracked : Found → Type 0
IsTracked found = (k : String) → seen k found.claimed ≡ true → Holds k found.workloads

-- The later find holds all that the earlier does.
abbrev pub Grows : Found → Found → Type 0
Grows a b = (k : String) → Holds k a.workloads → Holds k b.workloads

classed-namespace :
    (e : Option Engine) (empty : Bool) (w : Workload) → (classed e empty w).namespace ≡ w.namespace
classed-namespace (some e) empty w = refl
classed-namespace none true w = refl
classed-namespace none false w = refl

add_owner-Grows : (ns : String) (w : Workload) (found : Found) → Grows found (add_owner ns w found)
unfolding add_owner
add_owner-Grows ns w found k h = Some-append_left _ found.workloads (w ∷ []) h

add_owner-IsTracked :
    (ns : String) (w : Workload) (found : Found)
    → w.namespace ≡ ns
    → IsTracked found
    → IsTracked (add_owner ns w found)
unfolding add_owner
add_owner-IsTracked ns w found own h k marked = elim (Bool-cases (seen k found.claimed)) [
  | inl old ↦ Some-append_left _ found.workloads (w ∷ []) (h k old)
  | inr new ↦
      Some-append_right (λ v. seen k (claims v) ≡ true) found.workloads (w ∷ [])
        (inl (
          rw own
            (ground (arith, any-append (λ m. m == k) found.claimed (map (claim ns) w.pvc_names)))))
]

add_owners-IsTracked :
    (ns : String) (ws : List Workload) (found : Found)
    → All (λ w. w.namespace ≡ ns) ws
    → IsTracked found
    → IsTracked (add_owners ns ws found)
unfolding add_owners
add_owners-IsTracked ns [] found own h = h
add_owners-IsTracked ns (w ∷ ws) found (o, own) h =
    add_owners-IsTracked ns ws (add_owner ns w found) own (add_owner-IsTracked ns w found o h)

add_owners-Grows :
    (ns : String) (ws : List Workload) (found : Found) → Grows found (add_owners ns ws found)
unfolding add_owners
add_owners-Grows ns [] found k h = h
add_owners-Grows ns (w ∷ ws) found k h =
    add_owners-Grows ns ws (add_owner ns w found) k (add_owner-Grows ns w found k h)

add_pvc-Grows :
    (ns : String) (pvc : PersistentVolumeClaim) (found : Found) → Grows found (add_pvc ns found pvc)
unfolding add_pvc
add_pvc-Grows ns pvc found k h =
    elim (Bool-cases (seen (claim ns pvc.name) found.claimed || is_mover_scratch_pvc pvc)) [
      | inl out ↦ rw out h
      | inr kept ↦ rw kept (Some-append_left _ found.workloads (orphan ns pvc ∷ []) h)
    ]

add_pvc-claimed :
    (ns : String) (pvc : PersistentVolumeClaim) (found : Found)
    → (add_pvc ns found pvc).claimed ≡ found.claimed
unfolding add_pvc
add_pvc-claimed ns pvc found = ground arith

-- After its turn a claim is held, or is scratch.
abbrev pub IsCovered : String → List Workload → PersistentVolumeClaim → Type 0
IsCovered ns ws pvc = (is_mover_scratch_pvc pvc ≡ true) ⊎ Holds (claim ns pvc.name) ws

add_pvc-IsCovered :
    (ns : String) (pvc : PersistentVolumeClaim) (found : Found)
    → IsTracked found
    → IsCovered ns (add_pvc ns found pvc).workloads pvc
unfolding add_pvc
add_pvc-IsCovered ns pvc found h = elim (Bool-cases (is_mover_scratch_pvc pvc)) [
  | inl scratch ↦ inl scratch
  | inr user ↦ inr (elim (Bool-cases (seen (claim ns pvc.name) found.claimed)) [
    | inl marked ↦ rw marked (h (claim ns pvc.name) marked)
    | inr free ↦
        rw (free, user)
          (Some-append_right _ found.workloads (orphan ns pvc ∷ [])
            (inl (rw (eq_refl (claim ns pvc.name)))))
  ])
]

add_pvc-IsTracked :
    (ns : String) (pvc : PersistentVolumeClaim) (found : Found)
    → IsTracked found
    → IsTracked (add_pvc ns found pvc)
add_pvc-IsTracked ns pvc found h k marked =
    add_pvc-Grows ns pvc found k (h k (rw (add_pvc-claimed ns pvc found) at marked))

IsCovered-Grows :
    (ns : String) (pvc : PersistentVolumeClaim) (a b : Found)
    → Grows a b
    → IsCovered ns a.workloads pvc
    → IsCovered ns b.workloads pvc
IsCovered-Grows ns pvc a b grows (inl scratch) = inl scratch
IsCovered-Grows ns pvc a b grows (inr held) = inr (grows (claim ns pvc.name) held)

-- What a loop over claims does to what was found.
record IsSwept (ns : String) (pvcs : List PersistentVolumeClaim) (a b : Found) : Type 0 where
  tracked : IsTracked b
  grows : Grows a b
  covered : All (IsCovered ns b.workloads) pvcs

add_pvcs-IsSwept :
    (ns : String) (pvcs : List PersistentVolumeClaim) (found : Found)
    → IsTracked found
    → IsSwept ns pvcs found (add_pvcs ns pvcs found)
unfolding add_pvcs
add_pvcs-IsSwept ns [] found h = record { tracked = h; grows = λ k held. held; covered = tt }
add_pvcs-IsSwept ns (pvc ∷ pvcs) found h =
    let next = add_pvc ns found pvc in
    let rest = add_pvcs-IsSwept ns pvcs next (add_pvc-IsTracked ns pvc found h) in
    record {
      tracked = rest.tracked;
      grows = λ k held. rest.grows k (add_pvc-Grows ns pvc found k held);
      covered = (
        IsCovered-Grows ns pvc next (add_pvcs ns pvcs next) rest.grows
            (add_pvc-IsCovered ns pvc found h),
        rest.covered,
      );
    }

module _ (engines : List Engine) (lister : Lister) where
  of_sts-own :
      (ns : String) (xs : List StatefulSet)
      → All (λ w. w.namespace ≡ ns) (map (of_sts engines lister ns) xs)
  unfolding of_sts from_pod_owner
  of_sts-own ns [] = tt
  of_sts-own ns (x ∷ xs) = (classed-namespace _ _ _, of_sts-own ns xs)

  of_controller-own :
      (ns kind : String) (xs : List Controller)
      → All (λ w. w.namespace ≡ ns) (map (of_controller engines lister ns kind) xs)
  unfolding of_controller from_pod_owner
  of_controller-own ns kind [] = tt
  of_controller-own ns kind (x ∷ xs) = (classed-namespace _ _ _, of_controller-own ns kind xs)

  take_lists-IsSwept :
      (ns : String) (a b : Found) (sts : Fallible (List StatefulSet))
      (deps dss : Fallible (List Controller)) (pvcs : Fallible (List PersistentVolumeClaim))
      → IsTracked a
      → take_lists engines lister ns a sts deps dss pvcs ≡ ok b
      → (found : List PersistentVolumeClaim) × (pvcs ≡ ok found) × IsSwept ns found a b
  unfolding take_lists
  take_lists-IsSwept ns a b (ok sts) (ok deps) (ok dss) (ok pvcs) h done =
      let ss = map (of_sts engines lister ns) sts in
      let ds = map (of_controller engines lister ns "Deployment") deps in
      let es = map (of_controller engines lister ns "DaemonSet") dss in
      let a1 = add_owners ns ss a in
      let a2 = add_owners ns ds a1 in
      let a3 = add_owners ns es a2 in
      let h1 = add_owners-IsTracked ns ss a (of_sts-own ns sts) h in
      let h2 = add_owners-IsTracked ns ds a1 (of_controller-own ns "Deployment" deps) h1 in
      let h3 = add_owners-IsTracked ns es a2 (of_controller-own ns "DaemonSet" dss) h2 in
      let swept = add_pvcs-IsSwept ns pvcs a3 h3 in
      (
        pvcs,
        refl,
        subst (IsSwept ns pvcs a) (ok-injective done) (record {
          tracked = swept.tracked;
          grows = λ k held. swept.grows k (
              add_owners-Grows ns es a2 k
                (add_owners-Grows ns ds a1 k (add_owners-Grows ns ss a k held)));
          covered = swept.covered;
        }),
      )
  take_lists-IsSwept ns a b (err e) deps dss pvcs h done = cc
  take_lists-IsSwept ns a b (ok sts) (err e) dss pvcs h done = cc
  take_lists-IsSwept ns a b (ok sts) (ok deps) (err e) pvcs h done = cc
  take_lists-IsSwept ns a b (ok sts) (ok deps) (ok dss) (err e) h done = cc

  -- The claims of a namespace were listed, and each is covered.
  abbrev pub IsListed : List Workload → String → Type 0
  IsListed ws ns =
      (pvcs : List PersistentVolumeClaim) × (lister.pvcs ns ≡ ok pvcs) × All (IsCovered ns ws) pvcs

  pub record IsWalked (nss : List String) (a b : Found) : Type 0 where
    pub grows : Grows a b
    pub listed : All (IsListed b.workloads) nss

  walk_ns-IsSwept :
      (ns : String) (a b : Found)
      → IsTracked a
      → walk_ns engines lister ns a ≡ ok b
      → (found : List PersistentVolumeClaim) × (lister.pvcs ns ≡ ok found) × IsSwept ns found a b
  unfolding walk_ns
  walk_ns-IsSwept ns a b h done =
      let (pvcs, listed, swept) = take_lists-IsSwept ns a b _ _ _ _ h done in
      (pvcs, of_context ("list PVCs in " <> ns) (lister.pvcs ns) listed, swept)

  All-IsCovered :
      (ns : String) (pvcs : List PersistentVolumeClaim) (a b : Found)
      → Grows a b
      → All (IsCovered ns a.workloads) pvcs
      → All (IsCovered ns b.workloads) pvcs
  All-IsCovered ns [] a b grows h = tt
  All-IsCovered ns (p ∷ pvcs) a b grows (h, hs) =
      (IsCovered-Grows ns p a b grows h, All-IsCovered ns pvcs a b grows hs)

  pub walk_from-IsWalked :
      (nss : List String) (a b : Found)
      → IsTracked a
      → walk_from engines lister nss a ≡ ok b
      → IsWalked nss a b
  unfolding walk_from
  walk_from-IsWalked [] a b h done =
      subst (IsWalked [] a) (ok-injective done) (record { grows = λ k held. held; listed = tt })
  walk_from-IsWalked (ns ∷ nss) a b h done =
      let (next, step, done) =
        of_bind (walk_ns engines lister ns a) (walk_from engines lister nss) done in
      let (pvcs, asked, swept) = walk_ns-IsSwept ns a next h step in
      let rest = walk_from-IsWalked nss next b swept.tracked done in
      record {
        grows = λ k held. rest.grows k (swept.grows k held);
        listed =
            ((pvcs, asked, All-IsCovered ns pvcs next b rest.grows swept.covered), rest.listed);
      }
