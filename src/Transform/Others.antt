-- ===== src/Transform/Others.antt =====
-- `walkRuntimeClass` changes no other key.
use portage.Base.{
  String, ◌==◌, ◌≡◌, ◌≢◌, ◌↔◌, ◌⊎◌, Bool-cases, Option, none, some, lookup, arith, eq_iff, inl, inr,
  not, ◌&&◌,
}
use portage.Transform.{Options}
use portage.Transform.Json.{
  Json, null, bool, int, float, str, arr, obj, Items, nil, cons, Fields, end, field, HoldsText,
  ItemsHoldText,
}
use portage.Transform.Runtime.{
  walk_fields, walk_items, put_class, put_walked, IsMapped, walk_fields-IsMapped,
}

module _ (opt : Options) (key s : String) (other : key ≢ "runtimeClassName") where
  put_class-others :
      (k src : String) (found : Option String) (rest : Fields)
      → k ≡ "runtimeClassName"
      → HoldsText key s (put_class k found rest) ↔ HoldsText key s rest
  put_class-others k src none rest own = ground arith
  put_class-others k src (some dst) rest own = elim (Bool-cases (dst == "")) [
    | inl empty ↦ ground arith
    | inr named ↦ ground arith
  ]

  put_walked-others :
      (k src : String) (inner : Json) (rest : Fields)
      → HoldsText key s (put_walked opt k (str src) inner rest)
        ↔ (((k ≡ key) × (src ≡ s)) ⊎ HoldsText key s rest)
  put_walked-others k src inner rest =
      elim (Bool-cases (k == "runtimeClassName" && not (src == ""))) [
        | inl remapped ↦ ground (
          arith,
          eq_iff k "runtimeClassName",
          put_class-others k src (lookup src opt.runtime_class_map) rest,
        )
        | inr kept ↦ ground arith
      ]

  mutual
    unfolding walk_fields

    walk_fields-same : (fs : Fields) → HoldsText key s (walk_fields opt fs) ↔ HoldsText key s fs
    walk_fields-same end = ground arith
    walk_fields-same (field k (str src) fs) =
        ground (arith, put_walked-others k src (str src) (walk_fields opt fs), walk_fields-same fs)
    walk_fields-same (field k (obj gs) fs) =
        ground (arith, walk_fields-same gs, walk_fields-same fs)
    walk_fields-same (field k (arr xs) fs) = ground (arith, walk_items-same xs, walk_fields-same fs)
    walk_fields-same (field k null fs) = ground (arith, walk_fields-same fs)
    walk_fields-same (field k (bool b) fs) = ground (arith, walk_fields-same fs)
    walk_fields-same (field k (int n) fs) = ground (arith, walk_fields-same fs)
    walk_fields-same (field k (float n) fs) = ground (arith, walk_fields-same fs)

    walk_items-same :
        (xs : Items) → ItemsHoldText key s (walk_items opt xs) ↔ ItemsHoldText key s xs
    walk_items-same nil = ground arith
    walk_items-same (cons (obj fs) xs) = ground (arith, walk_fields-same fs, walk_items-same xs)
    walk_items-same (cons null xs) = walk_items-same xs
    walk_items-same (cons (bool b) xs) = walk_items-same xs
    walk_items-same (cons (int n) xs) = walk_items-same xs
    walk_items-same (cons (float n) xs) = walk_items-same xs
    walk_items-same (cons (str t) xs) = walk_items-same xs
    walk_items-same (cons (arr ys) xs) = walk_items-same xs

-- The walk changes which texts stand under a key, at any depth, under no key but `runtimeClassName`,
-- and under that key it leaves empty names and names that the map of the options gives.
pub walk_fields-IsRemapped :
    (opt : Options) (key s : String) (fs : Fields)
    → (key ≢ "runtimeClassName" → HoldsText key s (walk_fields opt fs) ↔ HoldsText key s fs)
      × (HoldsText "runtimeClassName" s (walk_fields opt fs) → IsMapped opt s)
walk_fields-IsRemapped opt key s fs =
    (λ other. walk_fields-same opt key s other fs, walk_fields-IsMapped opt s fs)
