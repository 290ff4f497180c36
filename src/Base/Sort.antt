-- ===== src/Base/Sort.antt =====
-- Go's `sort`: a list in the order of a `less` test, equal elements in their old order. (`sort.Slice`
-- leaves the order of equal elements open, `sort.SliceStable` keeps it.)
use mathlib.Core.Path.{◌≡◌}
use mathlib.Core.Logic.{◌↔◌, ◌⊎◌, inl, inr}
use mathlib.Core.Bool.{Bool, true, false}
use mathlib.Core.List.{List, [], ◌∷◌, Perm}
use mathlib.Core.List.Perm
use native.Mathlib.Omega.{arith}
use portage.Base.Tests.{if◌then◌else◌, Bool-cases}
use portage.Base.Lists.{All, Some}

module _ {ℓ} {A : Type ℓ} (less : A → A → Bool) where
  unfoldable pub place : A → List A → List A
  place x [] = x ∷ []
  place x (y ∷ ys) = if less y x then y ∷ place x ys else x ∷ y ∷ ys

  unfoldable pub sort : List A → List A
  unfolding place
  sort [] = []
  sort (x ∷ xs) = place x (sort xs)

  place-Some : (P : A → Type 0) (x : A) (xs : List A) → Some P (place x xs) ↔ (P x ⊎ Some P xs)
  unfolding place
  place-Some P x [] = ground arith
  place-Some P x (y ∷ ys) = ground (arith, place-Some P x ys)

  -- Sorting neither adds nor loses an element.
  pub sort-Some : (P : A → Type 0) (xs : List A) → Some P (sort xs) ↔ Some P xs
  unfolding sort
  sort-Some P [] = ground arith
  sort-Some P (x ∷ xs) = ground (arith, place-Some P x (sort xs), sort-Some P xs)

  place-perm : (x : A) (xs : List A) → Perm (place x xs) (x ∷ xs)
  unfolding place
  place-perm x [] = Perm.refl (x ∷ [])
  place-perm x (y ∷ ys) = elim (Bool-cases (less y x)) [
    | inl before ↦ rw before (Perm.trans (Perm.cons y (place-perm x ys)) (Perm.swap x y ys))
    | inr after ↦ rw after (Perm.refl (x ∷ y ∷ ys))
  ]

  pub sort-perm : (xs : List A) → Perm (sort xs) xs
  unfolding sort
  sort-perm [] = Perm.refl []
  sort-perm (x ∷ xs) = Perm.trans (place-perm x (sort xs)) (Perm.cons x (sort-perm xs))

  -- No element stands behind one that it should stand before: pairwise, as `less` is no more than
  -- a test.
  abbrev pub Ordered : List A → Type 0
  Ordered [] = Unit
  Ordered (x ∷ xs) = All (λ y. less y x ≡ false) xs × Ordered xs

-- Placing an element keeps the order of a coarser test that `less` decides for elements it tells
-- apart.
module _ {ℓ} {A : Type ℓ} (less coarse : A → A → Bool)
    (before : (a b : A) → less a b ≡ true → coarse b a ≡ false)
    (after : (a b : A) → less a b ≡ false → coarse a b ≡ false)
    (trans : (a b c : A) → coarse b a ≡ false → coarse c b ≡ false → coarse c a ≡ false) where
  place-All : (P : A → Type 0) (x : A) (xs : List A) → P x → All P xs → All P (place less x xs)
  unfolding place
  place-All P x [] own h = (own, h)
  place-All P x (y ∷ ys) own (first, h) = elim (Bool-cases (less y x)) [
    | inl earlier ↦ rw earlier (first, place-All P x ys own h)
    | inr later ↦ rw later (own, (first, h))
  ]

  All-trans :
      (x y : A) (ys : List A)
      → coarse y x ≡ false
      → All (λ z. coarse z y ≡ false) ys
      → All (λ z. coarse z x ≡ false) ys
  All-trans x y [] h hs = tt
  All-trans x y (z ∷ zs) h (first, hs) = (trans x y z h first, All-trans x y zs h hs)

  place-Ordered : (x : A) (xs : List A) → Ordered coarse xs → Ordered coarse (place less x xs)
  unfolding place
  place-Ordered x [] h = (tt, tt)
  place-Ordered x (y ∷ ys) (first, h) = elim (Bool-cases (less y x)) [
    | inl earlier ↦
        rw earlier (
          place-All (λ z. coarse z y ≡ false) x ys (before y x earlier) first,
          place-Ordered x ys h,
        )
    | inr later ↦ rw later ((after y x later, All-trans x y ys (after y x later) first), (first, h))
  ]

  pub sort-Ordered : (xs : List A) → Ordered coarse (sort less xs)
  unfolding sort
  sort-Ordered [] = tt
  sort-Ordered (x ∷ xs) = place-Ordered x (sort less xs) (sort-Ordered xs)
