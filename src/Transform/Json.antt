-- ===== src/Transform/Json.antt =====
-- The generic objects that pkg/transform/sanitize.go walks: `map[string]any`, `[]any` and the scalars
-- of a decoded Kubernetes object. The keys of an object are unique.
use portage.Base.{String, ◌≡◌, ℕ, Bool, ◌⊎◌}

-- An integer is an int64, and a float stands by what it is as an int64: the program reads no more.
mutual
  pub data Json : Type 0 where
    null : Json
    bool : Bool → Json
    int : ℕ → Json
    float : ℕ → Json
    str : String → Json
    arr : Items → Json
    obj : Fields → Json

  pub data Items : Type 0 where
    nil : Items
    cons : Json → Items → Items

  pub data Fields : Type 0 where
    end : Fields
    field : String → Json → Fields → Fields

-- Does the text `s` stand under the key `key` in an object that the walks reach? They go into the
-- objects, and into the objects of the lists, but not into lists of lists.
abbrev mutual
  pub HoldsText : String → String → Fields → Type 0
  HoldsText key s end = ⊥
  HoldsText key s (field k v fs) =
      ((k ≡ key) × (v ≡ str s)) ⊎ (ValueHoldsText key s v ⊎ HoldsText key s fs)

  pub ValueHoldsText : String → String → Json → Type 0
  ValueHoldsText key s (obj fs) = HoldsText key s fs
  ValueHoldsText key s (arr xs) = ItemsHoldText key s xs
  ValueHoldsText key s _ = ⊥

  pub ItemsHoldText : String → String → Items → Type 0
  ItemsHoldText key s nil = ⊥
  ItemsHoldText key s (cons (obj fs) xs) = HoldsText key s fs ⊎ ItemsHoldText key s xs
  ItemsHoldText key s (cons _ xs) = ItemsHoldText key s xs

pub str-injective : {s t : String} → str s ≡ str t → s ≡ t
str-injective e = cc
