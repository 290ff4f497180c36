-- ===== src/Transform/Local.antt =====
-- Which tolerations are left of an object.
use portage.Base.{String, ◌==◌, ◌≡◌, ◌≢◌, false, ◌⊎◌, inl, inr, ◌↔◌, arith, eq_iff, Bool-cases}
use portage.Transform.{cluster_local_toleration_key}
use portage.Transform.Json.{
  null, bool, int, float, str, arr, obj, Items, nil, cons, Fields, end, field,
}
use portage.Transform.Tolerations.{
  strip_fields, strip_items, kept_items, put_kept, put_list, Tolerates, HoldsToleration,
  ItemsHoldToleration, kept_items-Tolerates,
}

both : {P Q R S C : Type 0} → P ↔ (R × C) → Q ↔ (S × C) → (P ⊎ Q) ↔ ((R ⊎ S) × C)
both p q = ground (arith, p, q)

module _ (s : String) where
  put_kept-HoldsToleration :
      (k : String) (kept : Items) (rest : Fields)
      → k ≡ "tolerations"
      → HoldsToleration s (put_kept k kept rest) ↔ (Tolerates s kept ⊎ HoldsToleration s rest)
  put_kept-HoldsToleration k nil rest own = ground arith
  put_kept-HoldsToleration k (cons x xs) rest own = ground arith

  -- A list that was tolerations, or another.
  abbrev FromList : String → Items → Items → Type 0
  FromList k kept walked =
      ((k ≡ "tolerations") × Tolerates s kept)
      ⊎ ((k ≢ "tolerations") × ItemsHoldToleration s walked)

  put_list-HoldsToleration :
      (k : String) (kept walked : Items) (rest : Fields)
      → HoldsToleration s (put_list k kept walked rest)
        ↔ (FromList k kept walked ⊎ HoldsToleration s rest)
  put_list-HoldsToleration k kept walked rest = elim (Bool-cases (k == "tolerations")) [
    | inl own ↦
        rw own (ground (arith, eq_iff k "tolerations", put_kept-HoldsToleration k kept rest))
    | inr other ↦ rw other (ground (arith, eq_iff k "tolerations"))
  ]

  abbrev IsForeign : Type 0
  IsForeign = cluster_local_toleration_key s ≡ false

  mutual
    unfolding strip_fields

    HoldsToleration-strip_fields :
        (fs : Fields) → HoldsToleration s (strip_fields fs) ↔ (HoldsToleration s fs × IsForeign)
    HoldsToleration-strip_fields end = ground arith
    HoldsToleration-strip_fields (field k (arr xs) fs) = ground (
      arith,
      put_list-HoldsToleration k (kept_items xs) (strip_items xs) (strip_fields fs),
      kept_items-Tolerates s xs,
      HoldsToleration-strip_items xs,
      HoldsToleration-strip_fields fs,
    )
    HoldsToleration-strip_fields (field k (obj gs) fs) =
        both (HoldsToleration-strip_fields gs) (HoldsToleration-strip_fields fs)
    HoldsToleration-strip_fields (field k (str t) fs) = HoldsToleration-strip_fields fs
    HoldsToleration-strip_fields (field k null fs) = HoldsToleration-strip_fields fs
    HoldsToleration-strip_fields (field k (bool b) fs) = HoldsToleration-strip_fields fs
    HoldsToleration-strip_fields (field k (int n) fs) = HoldsToleration-strip_fields fs
    HoldsToleration-strip_fields (field k (float n) fs) = HoldsToleration-strip_fields fs

    HoldsToleration-strip_items :
        (xs : Items)
        → ItemsHoldToleration s (strip_items xs) ↔ (ItemsHoldToleration s xs × IsForeign)
    HoldsToleration-strip_items nil = ground arith
    HoldsToleration-strip_items (cons (obj fs) xs) =
        both (HoldsToleration-strip_fields fs) (HoldsToleration-strip_items xs)
    HoldsToleration-strip_items (cons null xs) = HoldsToleration-strip_items xs
    HoldsToleration-strip_items (cons (bool b) xs) = HoldsToleration-strip_items xs
    HoldsToleration-strip_items (cons (int n) xs) = HoldsToleration-strip_items xs
    HoldsToleration-strip_items (cons (float n) xs) = HoldsToleration-strip_items xs
    HoldsToleration-strip_items (cons (str t) xs) = HoldsToleration-strip_items xs
    HoldsToleration-strip_items (cons (arr ys) xs) = HoldsToleration-strip_items xs

-- Once stripped, an object has a toleration of a key, in a list of tolerations at any depth, exactly
-- if it had one and the key does not belong to the source cluster.
pub strip_fields-IsForeign :
    (s : String) (fs : Fields)
    → HoldsToleration s (strip_fields fs)
      ↔ (HoldsToleration s fs × (cluster_local_toleration_key s ≡ false))
strip_fields-IsForeign = HoldsToleration-strip_fields
