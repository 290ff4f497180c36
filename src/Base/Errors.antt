-- ===== src/Base/Errors.antt =====
-- A result or the text of an error.
use Prim.Native.String.{String}
use mathlib.Core.Path.{◌≡◌, refl}
use portage.Base.Text.{◌<>◌}

pub data Fallible {ℓ} (A : Type ℓ) : Type ℓ where
  ok : A → Fallible A
  err : String → Fallible A

infixl 5 ◌>>=◌
abbrev pub ◌>>=◌ {ℓ κ} : {A : Type ℓ} {B : Type κ} → Fallible A → (A → Fallible B) → Fallible B
ok a >>= f = f a
err e >>= f = err e

-- `fmt.Errorf("…: %w", err)`
abbrev pub context {ℓ} : {A : Type ℓ} → String → Fallible A → Fallible A
context what (ok a) = ok a
context what (err e) = err (what <> ": " <> e)

-- A chain that gives a result had one at each step.
pub of_bind {ℓ κ} :
    {A : Type ℓ} {B : Type κ} (m : Fallible A) (f : A → Fallible B) {b : B}
    → (m >>= f) ≡ ok b
    → (a : A) × (m ≡ ok a) × (f a ≡ ok b)
of_bind (ok a) f done = (a, refl, done)
of_bind (err e) f done = cc

pub of_context {ℓ} :
    {A : Type ℓ} (what : String) (m : Fallible A) {a : A} → context what m ≡ ok a → m ≡ ok a
of_context what (ok a) done = done
of_context what (err e) done = cc

pub ok-injective {ℓ} : {A : Type ℓ} {a b : A} → ok a ≡ ok b → a ≡ b
ok-injective e = cc

pub err-ok {ℓ} : {A : Type ℓ} {e : String} {a : A} → err e ≡ ok a → ⊥
err-ok e = cc
