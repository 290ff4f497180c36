-- ===== src/Base/Text.antt =====
-- The calls of Go's `strings` package, over the code points of a text. A prefix, suffix or
-- substring of a valid UTF-8 text is the same read by bytes or by code points. `ToLower` and
-- `EqualFold` fold the ASCII letters: the names, images and kinds that the program compares by them
-- are ASCII.
use Prim.Native.Nat.{ℕ, ◌+◌}
use Prim.Native.Char.{code}
use Prim.Native.String
use Prim.Native.String.{String, compare}
use text.Mathlib.Text.{is_lt}
use mathlib.Core.Path.{◌≡◌, refl}
use mathlib.Core.Bool.{Bool, true, false, ◌&&◌, ◌||◌}
use mathlib.Core.List.{List, [], ◌∷◌, ◌++◌, map}
use native.Mathlib.Omega.{arith}
use text.Mathlib.TextLemmas.{nil-append, cons-append}
use portage.Base.Tests.{leb, nat_beq, if◌then◌else◌}

-- `s + t` on Go strings.
infixr 65 ◌<>◌
abbrev pub ◌<>◌ : String → String → String
s <> t = String.◌++◌ s t

abbrev pub codes : String → List ℕ
codes String.[] = []
codes (String.◌∷◌ c s) = code c ∷ codes s

pub codes-append : (s t : String) → codes (s <> t) ≡ codes s ++ codes t
codes-append String.[] t = rw nil-append
codes-append (String.◌∷◌ c s) t = rw (cons-append, codes-append s t)

-- Does the first list begin with the second?
abbrev pub begins_with : List ℕ → List ℕ → Bool
begins_with cs [] = true
begins_with [] (d ∷ ds) = false
begins_with (c ∷ cs) (d ∷ ds) = nat_beq c d && begins_with cs ds

abbrev pub same : List ℕ → List ℕ → Bool
same [] [] = true
same (c ∷ cs) (d ∷ ds) = nat_beq c d && same cs ds
same _ _ = false

abbrev pub ends_with : List ℕ → List ℕ → Bool
ends_with [] ds = same [] ds
ends_with (c ∷ cs) ds = same (c ∷ cs) ds || ends_with cs ds

abbrev pub holds : List ℕ → List ℕ → Bool
holds [] ds = begins_with [] ds
holds (c ∷ cs) ds = begins_with (c ∷ cs) ds || holds cs ds

abbrev pub lower_code : ℕ → ℕ
lower_code c = if leb b'A' c && leb c b'Z' then c + 32 else c

-- `strings.HasPrefix`
unfoldable pub has_prefix : String → String → Bool
has_prefix s p = begins_with (codes s) (codes p)

-- `strings.HasSuffix`
unfoldable pub has_suffix : String → String → Bool
has_suffix s p = ends_with (codes s) (codes p)

-- `strings.Contains`
unfoldable pub str_contains : String → String → Bool
str_contains s p = holds (codes s) (codes p)

-- `strings.Contains(strings.ToLower(s), strings.ToLower(p))`
unfoldable pub contains_fold : String → String → Bool
contains_fold s p = holds (map lower_code (codes s)) (map lower_code (codes p))

-- `strings.EqualFold`
unfoldable pub equal_fold : String → String → Bool
equal_fold s t = same (map lower_code (codes s)) (map lower_code (codes t))

begins_with-append : (cs ds : List ℕ) → begins_with (cs ++ ds) cs ≡ true
begins_with-append [] ds = refl
begins_with-append (c ∷ cs) ds = ground (arith, begins_with-append cs ds)

-- A text begins with whatever it was prefixed with.
pub has_prefix-append : (p s : String) → has_prefix (p <> s) p ≡ true
unfolding has_prefix
has_prefix-append p s = rw (codes-append p s) (begins_with-append (codes p) (codes s))

holds-begins_with : (cs ds : List ℕ) → begins_with cs ds ≡ true → holds cs ds ≡ true
holds-begins_with [] ds h = h
holds-begins_with (c ∷ cs) ds h = rw h

map_append : (f : ℕ → ℕ) (cs ds : List ℕ) → map f (cs ++ ds) ≡ map f cs ++ map f ds
map_append f [] ds = refl
map_append f (c ∷ cs) ds = rw (map_append f cs ds)

-- A text holds whatever it begins with.
pub contains_fold-append : (p s : String) → contains_fold (p <> s) p ≡ true
unfolding contains_fold
contains_fold-append p s =
    rw (codes-append p s, map_append lower_code (codes p) (codes s))
      (holds-begins_with (map lower_code (codes p) ++ map lower_code (codes s))
        (map lower_code (codes p))
        (begins_with-append (map lower_code (codes p)) (map lower_code (codes s))))

same_refl : (cs : List ℕ) → same cs cs ≡ true
same_refl [] = refl
same_refl (c ∷ cs) = ground (arith, same_refl cs)

pub equal_fold_refl : (s : String) → equal_fold s s ≡ true
unfolding equal_fold
equal_fold_refl s = same_refl (map lower_code (codes s))

-- `<` on Go strings. The order by code points is that of the bytes of valid UTF-8.
abbrev pub str_lt : String → String → Bool
str_lt s t = is_lt (compare s t)
