-- ===== src/Base/Clip.antt =====
-- `s[:n]` and `len(s)` of a text that is ASCII, as the names of Kubernetes objects are.
use Prim.Native.Nat.{ℕ, zero, suc, ◌+◌, ◌≤◌, ◌<◌}
use Prim.Native.String.{String}
use mathlib.Core.Path.{◌≡◌, refl, ap}
use native.Mathlib.Omega.{arith}
use text.Mathlib.TextLemmas.{nil-append, cons-append}
use portage.Base.Tests.{ltb, if◌then◌else◌}
use portage.Base.Text.{◌<>◌}

abbrev pub text_length : String → ℕ
text_length String.[] = 0
text_length (String.◌∷◌ c s) = suc (text_length s)

abbrev pub clip : ℕ → String → String
clip zero s = ""
clip (suc n) String.[] = ""
clip (suc n) (String.◌∷◌ c s) = String.◌∷◌ c (clip n s)

-- `if len(s) > n { s = s[:n] }`
unfoldable pub at_most : ℕ → String → String
at_most n s = if ltb n (text_length s) then clip n s else s

text_length-clip : (n : ℕ) (s : String) → text_length (clip n s) ≤ n
text_length-clip zero s = omega arith
text_length-clip (suc n) String.[] = omega arith
text_length-clip (suc n) (String.◌∷◌ c s) = omega (arith, text_length-clip n s)

pub text_length-at_most : (n : ℕ) (s : String) → text_length (at_most n s) ≤ n
unfolding at_most
text_length-at_most n s = ground (arith, text_length-clip n s)

pub text_length-append : (s t : String) → text_length (s <> t) ≡ text_length s + text_length t
text_length-append String.[] t = rw nil-append (omega arith)
text_length-append (String.◌∷◌ c s) t = rw cons-append (omega (arith, text_length-append s t))

-- A cut within the first of two texts does not see the second.
clip-append : (n : ℕ) (s t : String) → n ≤ text_length s → clip n (s <> t) ≡ clip n s
clip-append zero s t h = refl
clip-append (suc n) String.[] t h = absurd (omega arith)
clip-append (suc n) (String.◌∷◌ c s) t h =
    rw cons-append (ap (λ r. String.◌∷◌ c r) (clip-append n s t (omega arith)))

pub at_most-append :
    (n : ℕ) (s t : String) → n ≤ text_length s → 0 < text_length t → at_most n (s <> t) ≡ clip n s
unfolding at_most
at_most-append n s t h more = ground (arith, text_length-append s t, clip-append n s t h)

pub at_most_self : (n : ℕ) (s : String) → text_length s ≤ n → at_most n s ≡ s
unfolding at_most
at_most_self n s h = ground arith

clip-clip : (k n : ℕ) (s : String) → k ≤ n → clip k (clip n s) ≡ clip k s
clip-clip zero n s h = refl
clip-clip (suc k) zero s h = absurd (omega arith)
clip-clip (suc k) (suc n) String.[] h = refl
clip-clip (suc k) (suc n) (String.◌∷◌ c s) h =
    ap (λ r. String.◌∷◌ c r) (clip-clip k n s (omega arith))

clip_self : (s : String) → clip (text_length s) s ≡ s
clip_self String.[] = refl
clip_self (String.◌∷◌ c s) = ap (λ r. String.◌∷◌ c r) (clip_self s)

-- A text that begins with `p` does so after the cut.
pub clip-at_most :
    (n : ℕ) (p s : String) → text_length p ≤ n → clip (text_length p) (at_most n (p <> s)) ≡ p
unfolding at_most
clip-at_most n p s h = ground (
  arith,
  clip-clip (text_length p) n (p <> s) h,
  clip-append (text_length p) p s (omega arith),
  clip_self p,
)
