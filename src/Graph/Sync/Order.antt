-- ===== src/Graph/Sync/Order.antt =====
-- The order of the pass, and what it reports.
use mathlib.Core.List.{Perm}
use portage.Base.{
  ℕ, ◌≡◌, refl, Bool, true, false, not, Option, none, some, List, [], ◌∷◌, if◌then◌else◌, nat_beq,
  ltb, arith, sort, sort-perm, sort-Ordered, or_else, Ordered, str_lt,
}
use portage.Graph.Sync.{Item, rank_of, item_before, sync_from, sync}

-- The test by rank alone.
abbrev pub rank_before : Item → Item → Bool
rank_before a b = ltb (rank_of a) (rank_of b)

by_rank-true :
    (m n : ℕ) (b : Bool) → (if not (nat_beq m n) then ltb m n else b) ≡ true → ltb n m ≡ false
by_rank-true m n b h = ground arith

by_rank-false :
    (m n : ℕ) (b : Bool) → (if not (nat_beq m n) then ltb m n else b) ≡ false → ltb m n ≡ false
by_rank-false m n b h = ground arith

item_before-rank : (a b : Item) → item_before a b ≡ true → rank_before b a ≡ false
unfolding item_before
item_before-rank a b h = by_rank-true (rank_of a) (rank_of b) (str_lt a.name b.name) h

rank-item_before : (a b : Item) → item_before a b ≡ false → rank_before a b ≡ false
unfolding item_before
rank-item_before a b h = by_rank-false (rank_of a) (rank_of b) (str_lt a.name b.name) h

rank_before_trans :
    (a b c : Item) → rank_before b a ≡ false → rank_before c b ≡ false → rank_before c a ≡ false
rank_before_trans a b c h k = ground arith

-- The error of the first object that has one.
abbrev pub first_error {ℓ} : {E : Type ℓ} → (Item → Option E) → List Item → Option E
first_error f [] = none
first_error f (it ∷ items) = or_else (f it) (first_error f items)

sync_from-first_error {ℓ} :
    {E : Type ℓ} (f : Item → Option E) (first : Option E) (items : List Item)
    → sync_from f first items ≡ or_else first (first_error f items)
unfolding sync_from
sync_from-first_error f none [] = refl
sync_from-first_error f (some e) [] = refl
sync_from-first_error f none (it ∷ items) = sync_from-first_error f (f it) items
sync_from-first_error f (some e) (it ∷ items) = sync_from-first_error f (some e) items

-- The pass goes over all the objects, none before one of a lower rank: Tenants, Namespaces and CRDs
-- before what needs them. It reports the error of the first object in this order that has one.
pub sync-IsOrdered :
    {E : Type 0} (f : Item → Option E) (items : List Item)
    → (order : List Item) × Perm order items
      × Ordered rank_before order
      × (sync f items ≡ first_error f order)
unfolding sync
sync-IsOrdered f items = (
  sort item_before items,
  sort-perm item_before items,
  sort-Ordered item_before rank_before item_before-rank rank-item_before rank_before_trans items,
  sync_from-first_error f none (sort item_before items),
)
