-- ===== src/Graph/Sync/Attested.antt =====
-- What `Attest` of pkg/clusterobjects/sync.go attests.
use portage.Base.{
  ◌+◌, ◌≤◌, ◌==◌, ◌≡◌, refl, ◌↔◌, ◌⊎◌, Bool, true, false, not, ◌||◌, List, [], ◌∷◌, if◌then◌else◌,
  All, arith,
}
use portage.Graph.Sync.{
  Item, Reply, found, absent, Tally, note_reply, count_item, tally_from, judge, attest_items,
  crd_established,
}

-- The destination has the object, and if it is a CRD it is established.
abbrev pub is_live : Item → Reply → Bool
is_live it (absent e) = false
is_live it (found conditions) =
    not (it.ref.resource == "customresourcedefinitions") || crd_established conditions

abbrev pub IsAttested : (Item → Reply) → Item → Type 0
IsAttested ask it = (it.deleting ≡ true) ⊎ (is_live it (ask it) ≡ true)

-- No more objects are missing than are live.
abbrev IsBounded : Tally → Type 0
IsBounded t = t.missing ≤ t.live

note_reply-missing :
    (it : Item) (t : Tally) (r : Reply)
    → (note_reply it t r).missing ≡ (if is_live it r then t.missing else t.missing + 1)
note_reply-missing it t (absent e) = refl
note_reply-missing it t (found conditions) = ground arith

note_reply-live : (it : Item) (t : Tally) (r : Reply) → (note_reply it t r).live ≡ t.live
note_reply-live it t (absent e) = refl
note_reply-live it t (found conditions) = ground arith

-- An object that is being deleted is not counted.
pick-missing :
    (deleting live : Bool) (t next : Tally)
    → next.missing ≡ (if live then t.missing else t.missing + 1)
    → ((if deleting then t else next).missing ≡ 0)
      ↔ ((t.missing ≡ 0) × ((deleting ≡ true) ⊎ (live ≡ true)))
pick-missing true live t next h = ground arith
pick-missing false true t next h = ground arith
pick-missing false false t next h = ground arith

pick-IsBounded :
    (deleting live : Bool) (t next : Tally)
    → next.missing ≡ (if live then t.missing else t.missing + 1)
    → next.live ≡ t.live + 1
    → IsBounded t
    → IsBounded (if deleting then t else next)
pick-IsBounded true live t next h k b = b
pick-IsBounded false true t next h k b = omega arith
pick-IsBounded false false t next h k b = omega arith

-- What the loop leaves in the counters.
record IsTallied (ask : Item → Reply) (t : Tally) (items : List Item) (out : Tally) : Type 0 where
  bounded : IsBounded out
  none_missing : (out.missing ≡ 0) ↔ ((t.missing ≡ 0) × All (IsAttested ask) items)

tally_from-IsTallied :
    (ask : Item → Reply) (t : Tally) (items : List Item)
    → IsBounded t
    → IsTallied ask t items (tally_from ask t items)
unfolding tally_from count_item
tally_from-IsTallied ask t [] h = record { bounded = h; none_missing = ground arith }
tally_from-IsTallied ask t (it ∷ items) h =
    let t1 = record t { live = t.live + 1 } in
    let next = note_reply it t1 (ask it) in
    let missing = note_reply-missing it t1 (ask it) in
    let live = note_reply-live it t1 (ask it) in
    let here = pick-missing it.deleting (is_live it (ask it)) t next missing in
    let rest =
      tally_from-IsTallied ask (count_item ask t it) items
        (pick-IsBounded it.deleting (is_live it (ask it)) t next missing live h) in
    record {
      bounded = rest.bounded;
      none_missing = (
        λ h.
            let (first, others) = rest.none_missing.0 h in
            let (before, own) = here.0 first in (before, (own, others)),
        λ (before, (own, others)). rest.none_missing.1 (here.1 (before, own), others),
      );
    }

judge-true : (t : Tally) → IsBounded t → ((judge t).0 ≡ true) ↔ (t.missing ≡ 0)
judge-true t h = ground arith

-- The object graph is attested exactly if every object that is not being deleted is on the
-- destination, and established if it is a CRD.
pub attest_items-IsAttested :
    (ask : Item → Reply) (items : List Item)
    → ((attest_items ask items).0 ≡ true) ↔ All (IsAttested ask) items
unfolding attest_items
attest_items-IsAttested ask [] = ground arith
attest_items-IsAttested ask (it ∷ items) =
    let start : Tally = record { live = 0; missing = 0; first = "" } in
    let out = tally_from ask start (it ∷ items) in
    let tallied = tally_from-IsTallied ask start (it ∷ items) (omega arith) in
    ground (arith, judge-true out tallied.bounded, tallied.none_missing)
