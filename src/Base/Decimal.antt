-- ===== src/Base/Decimal.antt =====
-- `%d`: the decimal print of a number that is not negative, and that it reads back.
use Prim.Native.Nat.{ℕ, zero, suc, ◌+◌, ◌-◌, ◌*◌, ◌/◌, ◌%◌, ◌<◌}
use Prim.Native.Char.{code}
use Prim.Native.String.{String}
use mathlib.Core.Path.{◌≡◌, refl, ap, sym, ◌∙◌}
use native.Mathlib.Omega.{arith}
use mathlib.Core.List.{[], ◌∷◌}
use mathlib.Core.Logic.{inl, inr}
use text.Mathlib.TextLemmas.{nil-append, cons-append}
use portage.Base.Tests.{ltb, if◌then◌else◌, Bool-cases}
use portage.Base.Text.{◌<>◌, codes}

-- The digit of a number below 10.
digit : ℕ → String
digit zero = "0"
digit (suc zero) = "1"
digit (suc (suc zero)) = "2"
digit (suc (suc (suc zero))) = "3"
digit (suc (suc (suc (suc zero)))) = "4"
digit (suc (suc (suc (suc (suc zero))))) = "5"
digit (suc (suc (suc (suc (suc (suc zero)))))) = "6"
digit (suc (suc (suc (suc (suc (suc (suc zero))))))) = "7"
digit (suc (suc (suc (suc (suc (suc (suc (suc zero)))))))) = "8"
digit _ = "9"

-- `%d` of a number that is not negative. The fuel is above the number: each round drops a digit.
digits_from : ℕ → ℕ → String → String
digits_from zero n rest = rest
digits_from (suc fuel) n rest =
    let more = digits_from fuel (n / 10) (digit (n % 10) <> rest) in
    if ltb n 10 then digit n <> rest else more

unfoldable pub nat_text : ℕ → String
unfolding digits_from digit
nat_text n = digits_from (suc n) n ""

-- The value of a text of digits, put behind a value.
abbrev value : ℕ → String → ℕ
value acc String.[] = acc
value acc (String.◌∷◌ c s) = value (acc * 10 + (code c - b'0')) s

value-one :
    (s : String) (k acc : ℕ) (rest : String)
    → codes s ≡ (b'0' + k) ∷ []
    → value acc (s <> rest) ≡ value (acc * 10 + k) rest
value-one String.[] k acc rest e = cc
value-one (String.◌∷◌ c String.[]) k acc rest e =
    rw (cons-append, nil-append) (ap (λ d. value (acc * 10 + d) rest) (ground arith))
value-one (String.◌∷◌ c (String.◌∷◌ d s)) k acc rest e = cc

digit-codes : (n : ℕ) → n < 10 → codes (digit n) ≡ (b'0' + n) ∷ []
unfolding digit
digit-codes zero h = refl
digit-codes (suc zero) h = refl
digit-codes (suc (suc zero)) h = refl
digit-codes (suc (suc (suc zero))) h = refl
digit-codes (suc (suc (suc (suc zero)))) h = refl
digit-codes (suc (suc (suc (suc (suc zero))))) h = refl
digit-codes (suc (suc (suc (suc (suc (suc zero)))))) h = refl
digit-codes (suc (suc (suc (suc (suc (suc (suc zero))))))) h = refl
digit-codes (suc (suc (suc (suc (suc (suc (suc (suc zero)))))))) h = refl
digit-codes (suc (suc (suc (suc (suc (suc (suc (suc (suc zero))))))))) h = refl
digit-codes (suc (suc (suc (suc (suc (suc (suc (suc (suc (suc n)))))))))) h = absurd (omega arith)

value-digit :
    (n acc : ℕ) (rest : String) → n < 10 → value acc (digit n <> rest) ≡ value (acc * 10 + n) rest
value-digit n acc rest h = value-one (digit n) n acc rest (digit-codes n h)

value-digits_from :
    (fuel n : ℕ) (rest : String) → n < fuel → value 0 (digits_from fuel n rest) ≡ value n rest
unfolding digits_from
value-digits_from zero n rest h = elim h [ ]
value-digits_from (suc fuel) n rest h = elim (Bool-cases (ltb n 10)) [
  | inl small ↦
      rw small (value-digit n 0 rest (ground arith) ∙ ap (λ k. value k rest) (omega arith))
  | inr large ↦ rw large (
      value-digits_from fuel (n / 10) (digit (n % 10) <> rest) (ground arith)
      ∙ value-digit (n % 10) (n / 10) rest (omega arith)
      ∙ ap (λ k. value k rest) (omega arith))
]

-- What is printed of two numbers is the same only if they are.
pub nat_text-injective : (m n : ℕ) → nat_text m ≡ nat_text n → m ≡ n
unfolding nat_text
nat_text-injective m n e =
    sym (value-digits_from (suc m) m "" (omega arith))
    ∙ ap (value 0) e
    ∙ value-digits_from (suc n) n "" (omega arith)

nat_text_test : nat_text 1205 ≡ "1205"
unfolding nat_text
nat_text_test = refl
