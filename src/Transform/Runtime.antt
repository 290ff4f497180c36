-- ===== src/Transform/Runtime.antt =====
-- `walkRuntimeClass` of pkg/transform/sanitize.go.
use mathlib.Core.Path.{subst}
use portage.Base.{
  String, ◌==◌, ◌≡◌, refl, not, ◌&&◌, Option, none, some, if◌then◌else◌, ◌⊎◌, inl, inr, lookup,
  arith, eq_iff, Bool-cases,
}
use portage.Transform.{Options}
use portage.Transform.Json.{
  str-injective, Json, null, bool, int, float, str, arr, obj, Items, nil, cons, Fields, end, field,
  HoldsText, ItemsHoldText,
}

-- The class of the map, in place of the old one; without one the field goes.
abbrev pub put_class : String → Option String → Fields → Fields
put_class k (some dst) rest = if not (dst == "") then field k (str dst) rest else rest
put_class k none rest = rest

-- The field `k` of the object once it and the others are walked; `inner` is the value walked. Only a
-- text is remapped, and no walk goes into a text, so the walk may do both in one pass.
abbrev pub put_walked : Options → String → Json → Json → Fields → Fields
put_walked opt k (str src) inner rest =
    if k == "runtimeClassName" && not (src == "")
    then put_class k (lookup src opt.runtime_class_map) rest
    else field k (str src) rest
put_walked opt k _ inner rest = field k inner rest

-- `walkRuntimeClass`
unfoldable mutual
  pub walk_fields : Options → Fields → Fields
  walk_fields opt end = end
  walk_fields opt (field k v fs) = put_walked opt k v (walk_value opt v) (walk_fields opt fs)

  pub walk_value : Options → Json → Json
  walk_value opt (obj fs) = obj (walk_fields opt fs)
  walk_value opt (arr xs) = arr (walk_items opt xs)
  walk_value opt v = v

  pub walk_items : Options → Items → Items
  walk_items opt nil = nil
  walk_items opt (cons (obj fs) xs) = cons (obj (walk_fields opt fs)) (walk_items opt xs)
  walk_items opt (cons v xs) = cons v (walk_items opt xs)

-- A name that is empty, or that the map gives.
abbrev pub IsMapped : Options → String → Type 0
IsMapped opt s = (s ≡ "") ⊎ ((src : String) × (lookup src opt.runtime_class_map ≡ some s))

-- A text of the new field or of the others.
first_holds :
    (opt : Options) (k text s : String) (rest : Fields)
    → (k ≡ "runtimeClassName" → IsMapped opt text)
    → (HoldsText "runtimeClassName" s rest → IsMapped opt s)
    → HoldsText "runtimeClassName" s (field k (str text) rest)
    → IsMapped opt s
first_holds opt k text s rest own ih (inl (key, same)) =
    subst (IsMapped opt) (str-injective same) (own key)
first_holds opt k text s rest own ih (inr (inl nested)) = elim nested [ ]
first_holds opt k text s rest own ih (inr (inr other)) = ih other

put_class-holds :
    (opt : Options) (k src s : String) (found : Option String) (rest : Fields)
    → lookup src opt.runtime_class_map ≡ found
    → (HoldsText "runtimeClassName" s rest → IsMapped opt s)
    → HoldsText "runtimeClassName" s (put_class k found rest)
    → IsMapped opt s
put_class-holds opt k src s none rest eq ih h = ih h
put_class-holds opt k src s (some dst) rest eq ih h = elim (Bool-cases (dst == "")) [
  | inl empty ↦ ih (rw empty at h)
  | inr named ↦ first_holds opt k dst s rest (λ _. inr (src, eq)) ih (rw named at h)
]

put_walked-holds :
    (opt : Options) (k src s : String) (inner : Json) (rest : Fields)
    → (HoldsText "runtimeClassName" s rest → IsMapped opt s)
    → HoldsText "runtimeClassName" s (put_walked opt k (str src) inner rest)
    → IsMapped opt s
put_walked-holds opt k src s inner rest ih h =
    elim (Bool-cases (k == "runtimeClassName" && not (src == ""))) [
      | inl remapped ↦ put_class-holds opt k src s _ rest refl ih (rw remapped at h)
      | inr kept ↦
          first_holds opt k src s rest
            (λ key. inl (ground (arith, eq_iff k "runtimeClassName", eq_iff src ""))) ih
            (rw kept at h)
    ]

mutual
  unfolding walk_fields

  HoldsText-walk_fields :
      (opt : Options) (s : String) (fs : Fields)
      → HoldsText "runtimeClassName" s (walk_fields opt fs)
      → IsMapped opt s
  HoldsText-walk_fields opt s end h = elim h [ ]
  HoldsText-walk_fields opt s (field k (str src) fs) h =
      put_walked-holds opt k src s (str src) (walk_fields opt fs) (HoldsText-walk_fields opt s fs) h
  HoldsText-walk_fields opt s (field k (obj gs) fs) h =
      ground (arith, HoldsText-walk_fields opt s fs, HoldsText-walk_fields opt s gs)
  HoldsText-walk_fields opt s (field k (arr xs) fs) h =
      ground (arith, HoldsText-walk_fields opt s fs, HoldsText-walk_items opt s xs)
  HoldsText-walk_fields opt s (field k null fs) h = ground (arith, HoldsText-walk_fields opt s fs)
  HoldsText-walk_fields opt s (field k (bool b) fs) h =
      ground (arith, HoldsText-walk_fields opt s fs)
  HoldsText-walk_fields opt s (field k (int n) fs) h =
      ground (arith, HoldsText-walk_fields opt s fs)
  HoldsText-walk_fields opt s (field k (float n) fs) h =
      ground (arith, HoldsText-walk_fields opt s fs)

  HoldsText-walk_items :
      (opt : Options) (s : String) (xs : Items)
      → ItemsHoldText "runtimeClassName" s (walk_items opt xs)
      → IsMapped opt s
  HoldsText-walk_items opt s nil h = elim h [ ]
  HoldsText-walk_items opt s (cons (obj fs) xs) (inl h) = HoldsText-walk_fields opt s fs h
  HoldsText-walk_items opt s (cons (obj fs) xs) (inr h) = HoldsText-walk_items opt s xs h
  HoldsText-walk_items opt s (cons v xs) h = HoldsText-walk_items opt s xs h

-- Once walked, every name of a runtime class that a text under `runtimeClassName` gives, at any
-- depth, is the empty one or one that the map of the options gives.
pub walk_fields-IsMapped :
    (opt : Options) (s : String) (fs : Fields)
    → HoldsText "runtimeClassName" s (walk_fields opt fs)
    → IsMapped opt s
walk_fields-IsMapped = HoldsText-walk_fields
