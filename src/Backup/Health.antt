-- ===== src/Backup/Health.antt =====
-- When a backup is healthy.
use mathlib.Core.Path.{fun_ext, subst}
use portage.Base.{
  Bool, Option, String, find_last, lookup-index_from, or_else-none, ◌≡◌, refl, ◌↔◌, ◌⊎◌, true, not,
  List, [], ◌∷◌, All, Map, lookup, arith, keep, map, is_empty,
}
use portage.Api.{ArtifactHealth, is_stateless}
use portage.Classify.{Workload, Inventory, key, holds_state, stateful}
use portage.Backup.{by_key, is_useful, missing_from, healthy}

lookup-by_key :
    (artifacts : List ArtifactHealth) (k : String)
    → lookup k (by_key artifacts) ≡ find_last (λ a. a.workload) k artifacts
unfolding lookup
lookup-by_key artifacts k =
    rw (lookup-index_from (λ a. a.workload) k [] artifacts)
      (or_else-none (find_last (λ a. a.workload) k artifacts))

missing_from_lem :
    (m : Map ArtifactHealth) (ws : List Workload)
    → missing_from m ws ≡ map key (keep (λ w. not (is_useful (lookup (key w) m))) ws)
unfolding missing_from
missing_from_lem m [] = refl
missing_from_lem m (w ∷ ws) = ground (arith, missing_from_lem m ws)

pub missing_from-nil_iff :
    (m : Map ArtifactHealth) (ws : List Workload)
    → (is_empty (missing_from m (keep holds_state ws)) ≡ true)
      ↔ All (λ w. (is_stateless w.class ≡ true) ⊎ (is_useful (lookup (key w) m) ≡ true)) ws
unfolding missing_from
missing_from-nil_iff m [] = ground arith
missing_from-nil_iff m (w ∷ ws) = ground (arith, missing_from-nil_iff m ws)

-- A report of the health of an inventory, by a function that finds artifacts.
abbrev pub IsReport : (String → Option ArtifactHealth) → Inventory → Bool × List String → Type 0
IsReport find inv (ok, missing) =
    ((ok ≡ true)
      ↔ All (λ w. (is_stateless w.class ≡ true) ⊎ (is_useful (find (key w)) ≡ true)) inv.workloads)
    × (missing ≡ map key (keep (λ w. not (is_useful (find (key w)))) (stateful inv)))

-- A backup is healthy exactly when every workload of the inventory is stateless or the last
-- artifact under its key is useful. The keys reported are those of the stateful workloads of which
-- this does not hold, in order.
pub healthy-IsReport :
    (inv : Inventory) (artifacts : List ArtifactHealth)
    → IsReport (λ k. find_last (λ a. a.workload) k artifacts) inv (healthy inv artifacts)
unfolding healthy stateful
healthy-IsReport inv artifacts =
    subst (λ find. IsReport find inv (healthy inv artifacts)) (fun_ext (lookup-by_key artifacts))
      (
        missing_from-nil_iff (by_key artifacts) inv.workloads,
        missing_from_lem (by_key artifacts) (keep holds_state inv.workloads),
      )
