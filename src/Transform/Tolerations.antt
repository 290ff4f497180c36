-- ===== src/Transform/Tolerations.antt =====
-- `stripClusterLocalTolerations` of pkg/transform/sanitize.go.
use mathlib.Core.Path.{subst}
use portage.Base.{
  String, ◌==◌, ◌≡◌, ◌≢◌, refl, Bool, true, false, Option, none, some, if◌then◌else◌, ◌⊎◌, inl, inr,
  ◌↔◌, arith, eq_iff, Bool-cases, sym, ◌∙◌,
}
use portage.Transform.{cluster_local_toleration_key}
use portage.Transform.Json.{
  Json, null, bool, int, float, str, arr, obj, Items, nil, cons, Fields, end, field,
}

-- `m[key]`
unfoldable pub find_field : String → Fields → Option Json
find_field key end = none
find_field key (field k v fs) = if k == key then some v else find_field key fs

-- `s, _ := v.(string)`
abbrev pub string_of : Option Json → String
string_of (some (str s)) = s
string_of _ = ""

-- `key, _ := tm["key"].(string)`
abbrev pub key_of : Fields → String
key_of fs = string_of (find_field "key" fs)

abbrev pub put_kept : String → Items → Fields → Fields
put_kept k nil rest = rest
put_kept k (cons x xs) rest = field k (arr (cons x xs)) rest

-- A list under the key `k`: as tolerations, or as any other list.
abbrev pub put_list : String → Items → Items → Fields → Fields
put_list k kept walked rest =
    if k == "tolerations" then put_kept k kept rest else field k (arr walked) rest

-- `stripClusterLocalTolerations`: a list of tolerations is filtered and what is kept of it walked,
-- in one pass; `kept_items` does both, and `strip_items` only walks.
unfoldable mutual
  unfolding find_field cluster_local_toleration_key

  pub strip_fields : Fields → Fields
  strip_fields end = end
  strip_fields (field k (arr xs) fs) = put_list k (kept_items xs) (strip_items xs) (strip_fields fs)
  strip_fields (field k (obj gs) fs) = field k (obj (strip_fields gs)) (strip_fields fs)
  strip_fields (field k v fs) = field k v (strip_fields fs)

  pub strip_items : Items → Items
  strip_items nil = nil
  strip_items (cons (obj fs) xs) = cons (obj (strip_fields fs)) (strip_items xs)
  strip_items (cons v xs) = cons v (strip_items xs)

  pub kept_items : Items → Items
  kept_items nil = nil
  kept_items (cons (obj fs) xs) =
      let kept = kept_items xs in
      let item = obj (strip_fields fs) in
      if cluster_local_toleration_key (key_of fs) then kept else cons item kept
  kept_items (cons v xs) = cons v (kept_items xs)

-- Is there a toleration of the key `s` in the list?
abbrev pub Tolerates : String → Items → Type 0
Tolerates s nil = ⊥
Tolerates s (cons (obj gs) xs) = (key_of gs ≡ s) ⊎ Tolerates s xs
Tolerates s (cons _ xs) = Tolerates s xs

-- Does a list of tolerations that the walk reaches have the key `s`? A toleration holds no others.
abbrev mutual
  pub HoldsToleration : String → Fields → Type 0
  HoldsToleration s end = ⊥
  HoldsToleration s (field k (arr xs) fs) =
      ((k ≡ "tolerations") × Tolerates s xs)
      ⊎ (((k ≢ "tolerations") × ItemsHoldToleration s xs) ⊎ HoldsToleration s fs)
  HoldsToleration s (field k (obj gs) fs) = HoldsToleration s gs ⊎ HoldsToleration s fs
  HoldsToleration s (field k _ fs) = HoldsToleration s fs

  pub ItemsHoldToleration : String → Items → Type 0
  ItemsHoldToleration s nil = ⊥
  ItemsHoldToleration s (cons (obj fs) xs) = HoldsToleration s fs ⊎ ItemsHoldToleration s xs
  ItemsHoldToleration s (cons _ xs) = ItemsHoldToleration s xs

put_kept-key_of :
    (k : String) (kept : Items) (rest : Fields)
    → k ≡ "tolerations"
    → key_of (put_kept k kept rest) ≡ key_of rest
unfolding find_field
put_kept-key_of k nil rest own = refl
put_kept-key_of k (cons x xs) rest own = rw own

not_key : (k : String) → k ≡ "tolerations" → (k == "key") ≡ false
not_key k own = rw own

put_list-key_of :
    (k : String) (kept walked : Items) (rest : Fields)
    → key_of (put_list k kept walked rest) ≡ (if k == "key" then "" else key_of rest)
unfolding find_field
put_list-key_of k kept walked rest = elim (Bool-cases (k == "tolerations")) [
  | inl own ↦
      let same = (eq_iff k "tolerations").0 own in
      rw (own, not_key k same) (put_kept-key_of k kept rest same)
  | inr other ↦ rw other (ground arith)
]

arr-key_of :
    (k : String) (xs : Items) (fs : Fields)
    → key_of (field k (arr xs) fs) ≡ (if k == "key" then "" else key_of fs)
unfolding find_field
arr-key_of k xs fs = ground arith

field-key_of :
    (k : String) (v : Json) (fs gs : Fields)
    → key_of fs ≡ key_of gs
    → key_of (field k v fs) ≡ key_of (field k v gs)
unfolding find_field
field-key_of k v fs gs h = elim (Bool-cases (k == "key")) [
  | inl own ↦ rw own
  | inr other ↦ rw other h
]

obj-key_of :
    (k : String) (cs bs fs gs : Fields)
    → key_of fs ≡ key_of gs
    → key_of (field k (obj cs) fs) ≡ key_of (field k (obj bs) gs)
unfolding find_field
obj-key_of k cs bs fs gs h = elim (Bool-cases (k == "key")) [
  | inl own ↦ rw own
  | inr other ↦ rw other h
]

strip_fields-key_of : (fs : Fields) → key_of (strip_fields fs) ≡ key_of fs
unfolding strip_fields find_field
strip_fields-key_of end = refl
strip_fields-key_of (field k (arr xs) fs) =
    put_list-key_of k (kept_items xs) (strip_items xs) (strip_fields fs)
    ∙ rw (strip_fields-key_of fs) (sym (arr-key_of k xs fs))
strip_fields-key_of (field k (obj gs) fs) =
    obj-key_of k (strip_fields gs) gs (strip_fields fs) fs (strip_fields-key_of fs)
strip_fields-key_of (field k (str s) fs) =
    field-key_of k (str s) (strip_fields fs) fs (strip_fields-key_of fs)
strip_fields-key_of (field k null fs) =
    field-key_of k null (strip_fields fs) fs (strip_fields-key_of fs)
strip_fields-key_of (field k (bool b) fs) =
    field-key_of k (bool b) (strip_fields fs) fs (strip_fields-key_of fs)
strip_fields-key_of (field k (int n) fs) =
    field-key_of k (int n) (strip_fields fs) fs (strip_fields-key_of fs)
strip_fields-key_of (field k (float n) fs) =
    field-key_of k (float n) (strip_fields fs) fs (strip_fields-key_of fs)

same_local :
    (key s : String) (b : Bool)
    → key ≡ s
    → cluster_local_toleration_key key ≡ b
    → cluster_local_toleration_key s ≡ b
same_local key s b own h = subst (λ t. cluster_local_toleration_key t ≡ b) own h

-- A toleration that is dropped, and one that is kept.
drop_item :
    (key s : String) (xs kept : Items)
    → cluster_local_toleration_key key ≡ true
    → Tolerates s kept ↔ (Tolerates s xs × (cluster_local_toleration_key s ≡ false))
    → Tolerates s kept ↔ (((key ≡ s) ⊎ Tolerates s xs) × (cluster_local_toleration_key s ≡ false))
drop_item key s xs kept local ih = ground (arith, same_local key s true, ih)

keep_item :
    (key s : String) (xs kept : Items)
    → cluster_local_toleration_key key ≡ false
    → Tolerates s kept ↔ (Tolerates s xs × (cluster_local_toleration_key s ≡ false))
    → ((key ≡ s) ⊎ Tolerates s kept)
      ↔ (((key ≡ s) ⊎ Tolerates s xs) × (cluster_local_toleration_key s ≡ false))
keep_item key s xs kept local ih = ground (arith, same_local key s false, ih)

module _ (s : String) where
  mutual
    unfolding strip_fields

    pub kept_items-Tolerates :
        (xs : Items)
        → Tolerates s (kept_items xs) ↔ (Tolerates s xs × (cluster_local_toleration_key s ≡ false))
    kept_items-Tolerates nil = ground arith
    kept_items-Tolerates (cons (obj fs) xs) =
        elim (Bool-cases (cluster_local_toleration_key (key_of fs))) [
          | inl dropped ↦
              rw dropped
                (drop_item (key_of fs) s xs (kept_items xs) dropped (kept_items-Tolerates xs))
          | inr kept ↦
              rw (kept, strip_fields-key_of fs)
                (keep_item (key_of fs) s xs (kept_items xs) kept (kept_items-Tolerates xs))
        ]
    kept_items-Tolerates (cons null xs) = kept_items-Tolerates xs
    kept_items-Tolerates (cons (bool b) xs) = kept_items-Tolerates xs
    kept_items-Tolerates (cons (int n) xs) = kept_items-Tolerates xs
    kept_items-Tolerates (cons (float n) xs) = kept_items-Tolerates xs
    kept_items-Tolerates (cons (str t) xs) = kept_items-Tolerates xs
    kept_items-Tolerates (cons (arr ys) xs) = kept_items-Tolerates xs
