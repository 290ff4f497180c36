-- ===== src/Base/Split.antt =====
-- `strings.Split`, `strings.Cut` at one character, and `strings.Join`.
use Prim.Native.Nat.{ℕ, zero, suc, ◌-◌}
use Prim.Native.Char.{Char, code}
use Prim.Native.String.{String}
use mathlib.Core.Path.{◌≡◌, refl}
use mathlib.Core.List.{List, [], ◌∷◌, ◌++◌}
use mathlib.Core.Logic.{inl, inr}
use native.Mathlib.Omega.{arith}
use text.Mathlib.TextLemmas.{nil-append, cons-append}
use portage.Base.Tests.{nat_beq, if◌then◌else◌, Bool-cases}
use portage.Base.Text.{◌<>◌}
use portage.Base.Lists.{length}

abbrev push : Char → List String → List String
push d [] = String.◌∷◌ d String.[] ∷ []
push d (x ∷ xs) = String.◌∷◌ d x ∷ xs

-- `strings.Split(s, c)`
unfoldable pub split : ℕ → String → List String
split c String.[] = "" ∷ []
split c (String.◌∷◌ d s) =
    let rest = split c s in if nat_beq (code d) c then "" ∷ rest else push d rest

-- `strings.Cut(s, c)`: what stands before the first `c`, and after it.
unfoldable pub cut : ℕ → String → String × String
cut c String.[] = ("", "")
cut c (String.◌∷◌ d s) =
    let (before, after) = cut c s in
    if nat_beq (code d) c then ("", s) else (String.◌∷◌ d before, after)

-- `strings.Join(ss, sep)`
unfoldable pub join : String → List String → String
join sep [] = ""
join sep (s ∷ []) = s
join sep (s ∷ t ∷ ss) = s <> sep <> join sep (t ∷ ss)

abbrev pub take {ℓ} : {A : Type ℓ} → ℕ → List A → List A
take zero xs = []
take (suc n) [] = []
take (suc n) (x ∷ xs) = x ∷ take n xs

-- `xs[:len(xs)-n]`
abbrev pub drop_last {ℓ} : {A : Type ℓ} → ℕ → List A → List A
drop_last n xs = take (length xs - n) xs

split_test : split b'/' "a/b/" ≡ "a" ∷ "b" ∷ "" ∷ []
unfolding split
split_test = refl

cut_test : cut b'.' "crds.portage.io" ≡ ("crds", "portage.io")
unfolding cut
cut_test = refl

push-push :
    (d e : Char) (xs rest : List String) → push d (push e xs) ++ rest ≡ push d (push e xs ++ rest)
push-push d e [] rest = refl
push-push d e (x ∷ xs) rest = refl

push-append :
    (c d : Char) (s : String) (rest : List String)
    → (push d (split (code c) s)) ++ rest ≡ push d (split (code c) s ++ rest)
unfolding split
push-append c d String.[] rest = refl
push-append c d (String.◌∷◌ e s) rest = elim (Bool-cases (nat_beq (code e) (code c))) [
  | inl here ↦ rw here refl
  | inr other ↦ rw other (push-push d e (split (code c) s) rest)
]

-- A separator splits where it stands.
pub split-append :
    (c : Char) (s t : String)
    → split (code c) (s <> String.◌∷◌ c t) ≡ split (code c) s ++ split (code c) t
unfolding split
split-append c String.[] t = rw nil-append (ground arith)
split-append c (String.◌∷◌ d s) t =
    rw (cons-append, split-append c s t) (ground (arith, push-append c d s (split (code c) t)))
