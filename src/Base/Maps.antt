-- ===== src/Base/Maps.antt =====
-- A Go map as an association list: the first entry of a key counts. A read of a missing key is
-- `none` (the `ok` of `v, ok := m[k]`) or the zero value (`m[k]`).
use Prim.Native.String.{String}
use mathlib.Core.Path.{◌≡◌, refl}
use mathlib.Core.Option.{Option, none, some}
use mathlib.Core.List.{List, [], ◌∷◌}
use native.Mathlib.Omega.{arith}
use text.Mathlib.Text.{◌==◌}
use text.Mathlib.TextEquality.{eq_iff}
use mathlib.Core.Bool.{Bool, true, false}
use portage.Base.Tests.{if◌then◌else◌}
use portage.Base.Lists.{All}

abbrev pub Map {ℓ} : Type ℓ → Type ℓ
Map V = List (String × V)

module _ {ℓ} {V : Type ℓ} where
  unfoldable pub lookup : String → Map V → Option V
  lookup key [] = none
  lookup key ((name, value) ∷ rest) = if name == key then some value else lookup key rest

  -- `m[key] = value`: the entry in its place, or a new one at the end.
  unfoldable pub insert : String → V → Map V → Map V
  insert key value [] = (key, value) ∷ []
  insert key value ((name, old) ∷ rest) =
      if name == key then (name, value) ∷ rest else (name, old) ∷ insert key value rest

  -- `delete(m, key)`
  unfoldable pub delete : String → Map V → Map V
  delete key [] = []
  delete key ((name, old) ∷ rest) =
      if name == key then delete key rest else (name, old) ∷ delete key rest

  abbrev pub or_zero : V → Option V → V
  or_zero zero none = zero
  or_zero zero (some value) = value

  -- `m[key]`
  unfoldable pub get : V → String → Map V → V
  get zero key m = or_zero zero (lookup key m)

  pub lookup-insert :
      (key : String) (value : V) (m : Map V) (wanted : String)
      → lookup wanted (insert key value m) ≡ (if key == wanted then some value else lookup wanted m)
  unfolding insert lookup
  lookup-insert key value [] wanted = refl
  lookup-insert key value ((name, old) ∷ rest) wanted = ground (
    arith,
    lookup-insert key value rest wanted,
    eq_iff name wanted,
    eq_iff name key,
    eq_iff key wanted,
  )

  pub lookup-delete :
      (key : String) (m : Map V) (wanted : String)
      → lookup wanted (delete key m) ≡ (if key == wanted then none else lookup wanted m)
  unfolding delete lookup
  lookup-delete key [] wanted = ground arith
  lookup-delete key ((name, old) ∷ rest) wanted =
      ground (
        arith,
        lookup-delete key rest wanted,
        eq_iff name wanted,
        eq_iff name key,
        eq_iff key wanted,
      )

-- `for _, x := range xs { m[key(x)] = x }`
unfoldable pub index_from {ℓ} : {A : Type ℓ} → (A → String) → Map A → List A → Map A
index_from key m [] = m
index_from key m (x ∷ xs) = index_from key (insert (key x) x m) xs

abbrev pub or_else {ℓ} : {A : Type ℓ} → Option A → Option A → Option A
or_else none o = o
or_else (some x) o = some x

pub or_else-none {ℓ} : {A : Type ℓ} (o : Option A) → or_else o none ≡ o
or_else-none none = refl
or_else-none (some x) = refl

-- The last element under a key.
unfoldable pub find_last {ℓ} : {A : Type ℓ} → (A → String) → String → List A → Option A
find_last key k [] = none
find_last key k (x ∷ xs) = or_else (find_last key k xs) (if key x == k then some x else none)

-- What such a loop leaves under a key is the last element of that key, or what was there.
pub lookup-index_from {ℓ} :
    {A : Type ℓ} (key : A → String) (k : String) (m : Map A) (xs : List A)
    → lookup k (index_from key m xs) ≡ or_else (find_last key k xs) (lookup k m)
unfolding index_from find_last
lookup-index_from key k m [] = refl
lookup-index_from key k m (x ∷ xs) =
    ground (arith, lookup-index_from key k (insert (key x) x m) xs, lookup-insert (key x) x m k)

-- What holds of every element of the list holds of the one that is found.
pub find_last-All {ℓ κ} :
    {A : Type ℓ} (P : A → Type κ) (key : A → String) (k : String) (zero : A) (xs : List A)
    → P zero
    → All P xs
    → P (or_zero zero (find_last key k xs))
unfolding find_last
find_last-All P key k zero [] base _ = base
find_last-All {A} P key k zero (x ∷ xs) base (h, hs) =
    pick (find_last key k xs) (key x == k) (find_last-All P key k zero xs base hs)
  where
    pick :
        (o : Option A) (b : Bool)
        → P (or_zero zero o)
        → P (or_zero zero (or_else o (if b then some x else none)))
    pick none true _ = h
    pick none false _ = base
    pick (some y) b found = found
