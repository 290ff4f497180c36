-- ===== src/Base/Trim.antt =====
-- `strings.TrimSpace`.
use Prim.Native.Nat.{ℕ}
use Prim.Native.Char.{Char, code}
use Prim.Native.String.{String}
use mathlib.Core.Path.{◌≡◌, refl, ◌∙◌, ap}
use mathlib.Core.Bool.{Bool, true, false, ◌&&◌, ◌||◌}
use text.Mathlib.Text.{◌==◌}
use text.Mathlib.TextLemmas.{nil-append, cons-append, cons≢nil}
use text.Mathlib.TextEquality.{eq_iff}
use mathlib.Core.Logic.{inl, inr}
use native.Mathlib.Omega.{arith}
use portage.Base.Tests.{leb, nat_beq, if◌then◌else◌, Bool-cases}
use portage.Base.Text.{◌<>◌}

-- `unicode.IsSpace`
is_space : ℕ → Bool
is_space c =
    (leb 9 c && leb c 13)
    || nat_beq c 32
    || nat_beq c 0x85
    || nat_beq c 0xa0
    || nat_beq c 0x1680
    || (leb 0x2000 c && leb c 0x200a)
    || nat_beq c 0x2028
    || nat_beq c 0x2029
    || nat_beq c 0x202f
    || nat_beq c 0x205f
    || nat_beq c 0x3000

trim_left : String → String
unfolding is_space
trim_left String.[] = String.[]
trim_left (String.◌∷◌ c s) = if is_space (code c) then trim_left s else String.◌∷◌ c s

abbrev put_back : Char → String → String
put_back c String.[] = if is_space (code c) then String.[] else String.◌∷◌ c String.[]
put_back c (String.◌∷◌ d s) = String.◌∷◌ c (String.◌∷◌ d s)

trim_right : String → String
unfolding is_space
trim_right String.[] = String.[]
trim_right (String.◌∷◌ c s) = put_back c (trim_right s)

-- `strings.TrimSpace`
unfoldable pub trim_space : String → String
unfolding trim_left trim_right is_space
trim_space s = trim_right (trim_left s)

trim_test : trim_space "  a b; dest= " ≡ "a b; dest="
unfolding trim_space
trim_test = refl

-- No character of the text is white space.
unfoldable pub solid : String → Bool
unfolding is_space
solid String.[] = true
solid (String.◌∷◌ c s) = if is_space (code c) then false else solid s

put_back-solid : (c : Char) (s : String) → is_space (code c) ≡ false → put_back c s ≡ String.◌∷◌ c s
put_back-solid c String.[] h = rw h
put_back-solid c (String.◌∷◌ d s) h = refl

solid-cons :
    (c : Char) (p : String)
    → solid (String.◌∷◌ c p) ≡ true
    → (is_space (code c) ≡ false) × (solid p ≡ true)
unfolding solid
solid-cons c p h = elim (Bool-cases (is_space (code c))) [
  | inl space ↦ ground arith
  | inr other ↦ (other, rw other at h)
]

trim_right-solid : (p s : String) → solid p ≡ true → trim_right (p <> s) ≡ p <> trim_right s
unfolding trim_right
trim_right-solid String.[] s h = rw (nil-append, nil-append)
trim_right-solid (String.◌∷◌ c p) s h =
    let (own, rest) = solid-cons c p h in
    rw (cons-append, trim_right-solid p s rest, cons-append)
      (put_back-solid c (p <> trim_right s) own)

trim_left-solid :
    (c : Char) (p : String)
    → is_space (code c) ≡ false
    → trim_left (String.◌∷◌ c p) ≡ String.◌∷◌ c p
unfolding trim_left
trim_left-solid c p h = rw h

trim_space-cons :
    (c : Char) (p s : String)
    → solid (String.◌∷◌ c p) ≡ true
    → (t : String) × (trim_space (String.◌∷◌ c p <> s) ≡ String.◌∷◌ c p <> t)
unfolding trim_space
trim_space-cons c p s h =
    let (own, _) = solid-cons c p h in
    let left : trim_left (String.◌∷◌ c p <> s) ≡ String.◌∷◌ c p <> s =
      rw cons-append (trim_left-solid c (p <> s) own) in
    (trim_right s, ap trim_right left ∙ trim_right-solid (String.◌∷◌ c p) s h)

-- A text that begins with a part without white space begins with it when trimmed.
pub trim_space-solid :
    (p s : String)
    → (p == "") ≡ false
    → solid p ≡ true
    → (t : String) × (trim_space (p <> s) ≡ p <> t)
trim_space-solid String.[] s some_text h = cc
trim_space-solid (String.◌∷◌ c p) s some_text h = trim_space-cons c p s h

cons-some_text : (c : Char) (s : String) → (String.◌∷◌ c s == "") ≡ false
cons-some_text c s = elim (Bool-cases (String.◌∷◌ c s == "")) [
  | inl blank ↦ absurd (cons≢nil ((eq_iff (String.◌∷◌ c s) "").0 blank))
  | inr given ↦ given
]

-- A text that begins with a text of one character at least is not empty.
pub append-some_text : (p s : String) → (p == "") ≡ false → ((p <> s) == "") ≡ false
append-some_text String.[] s some_text = cc
append-some_text (String.◌∷◌ c p) s some_text = rw cons-append (cons-some_text c (p <> s))
