-- ===== src/Classify/Complete.antt =====
-- The inventory of `Walk` leaves no claim out.
use mathlib.Core.Path.{subst}
use portage.Base.{
  String, ◌≡◌, inl, inr, true, List, [], ◌∷◌, All, ok, ok-injective, of_bind, sort, sort-Some,
}
use portage.Kube.{PersistentVolumeClaim}
use portage.Classify.{Workload, Inventory}
use portage.Classify.Catalog.{Engine}
use portage.Classify.Pods.{seen}
use portage.Classify.Walk.{Lister, Found, claim, before, walk_from, walk}
use portage.Classify.Coverage.{claims, IsCovered, IsListed, walk_from-IsWalked}

IsCovered-sort :
    (ns : String) (ws : List Workload) (pvcs : List PersistentVolumeClaim)
    → All (IsCovered ns ws) pvcs
    → All (IsCovered ns (sort before ws)) pvcs
IsCovered-sort ns ws [] h = tt
IsCovered-sort ns ws (p ∷ pvcs) (inl scratch, hs) = (inl scratch, IsCovered-sort ns ws pvcs hs)
IsCovered-sort ns ws (p ∷ pvcs) (inr held, hs) = (
  inr ((sort-Some before (λ w. seen (claim ns p.name) (claims w) ≡ true) ws).1 held),
  IsCovered-sort ns ws pvcs hs,
)

module _ (engines : List Engine) (lister : Lister) where
  All-IsListed-sort :
      (ws : List Workload) (nss : List String)
      → All (IsListed engines lister ws) nss
      → All (IsListed engines lister (sort before ws)) nss
  All-IsListed-sort ws [] h = tt
  All-IsListed-sort ws (ns ∷ nss) ((pvcs, asked, h), hs) =
      ((pvcs, asked, IsCovered-sort ns ws pvcs h), All-IsListed-sort ws nss hs)

  -- A walk that succeeds got the list of the claims of every namespace that it was given, in which
  -- each claim is a mover's scratch or one of the claims, spelt `namespace/name`, of a workload of the
  -- inventory.
  pub walk-IsComplete :
      (nss : List String) (inv : Inventory)
      → walk engines lister nss ≡ ok inv
      → All (IsListed engines lister inv.workloads) nss
  unfolding walk
  walk-IsComplete nss inv done =
      let (found, walked, done) = of_bind (walk_from engines lister nss _) _ done in
      let start : Found = record { workloads = []; claimed = [] } in
      let rest = walk_from-IsWalked engines lister nss start found (λ k marked. cc) walked in
      subst (λ inv. All (IsListed engines lister inv.workloads) nss) (ok-injective done)
        (All-IsListed-sort found.workloads nss rest.listed)
