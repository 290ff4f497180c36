-- ===== src/Controller/Dumps/Recorded.antt =====
-- The record of the dumps that were applied.
use Prim.Native.String.{String}
use Prim.Native.Char.{code}
use text.Mathlib.TextLemmas.{nil-append, cons-append}
use mathlib.Core.Path.{subst}
use text.Mathlib.TextEquality.{eq_iff}
use portage.Base.{
  ◌⊎◌, Bool-cases, inl, inr, ◌<>◌, ◌==◌, ◌≡◌, refl, sym, ap, ◌∙◌, Bool, true, false, not, ◌&&◌,
  ◌||◌, Option, none, some, [], ◌∷◌, arith, if◌then◌else◌, any, split, split-append, any-append,
  Fallible, ok, err, nat_beq,
}
use portage.Controller.Dumps.{dump_applied, remembered, remember_dump_applied, after_update}

-- No line ends within the text.
unfoldable pub one_line : String → Bool
one_line String.[] = true
one_line (String.◌∷◌ c s) = not (nat_beq (code c) 10) && one_line s

split-one_line : (s : String) → one_line s ≡ true → split 10 s ≡ s ∷ []
unfolding split one_line
split-one_line String.[] h = refl
split-one_line (String.◌∷◌ c s) h =
    let other : nat_beq (code c) 10 ≡ false = ground (arith, h) in
    let rest : one_line s ≡ true = ground (arith, h) in rw (other, split-one_line s rest) refl

newline-append : (t : String) → "\n" <> t ≡ String.◌∷◌ "\n" t
newline-append t = cons-append "\n" "" t ∙ ap (λ r. String.◌∷◌ "\n" r) (nil-append t)

any-one_line :
    (p : String → Bool) (latest line : String)
    → one_line line ≡ true
    → any p (split 10 (latest <> "\n" <> line)) ≡ (any p (split 10 latest) || p line)
any-one_line p latest line h =
    rw
      (
        newline-append line,
        split-append "\n" latest line,
        split-one_line line h,
        any-append p (split 10 latest) (line ∷ []),
      )
      (ground arith)

-- A key that is asked for is there, or any other one stays.
applied_same :
    (latest key k : String)
    → dump_applied latest key ≡ true
    → dump_applied latest k ≡ (dump_applied latest k || k == key)
applied_same latest key k h = elim (Bool-cases (k == key)) [
  | inl same ↦
      subst (λ n. dump_applied latest n ≡ (dump_applied latest n || k == key))
        (sym ((eq_iff k key).0 same)) (rw h refl)
  | inr other ↦ rw other (ground arith)
]

applied_first :
    (key k : String)
    → one_line key ≡ true
    → (key == "") ≡ false
    → dump_applied key k ≡ (dump_applied "" k || k == key)
unfolding dump_applied split
applied_first key k line given =
    rw (split-one_line key line)
      (ground (arith, eq_iff key k, eq_iff k key, eq_iff "" k, eq_iff k ""))

applied_next :
    (latest key k : String)
    → one_line key ≡ true
    → (key == "") ≡ false
    → dump_applied (latest <> "\n" <> key) k ≡ (dump_applied latest k || k == key)
unfolding dump_applied
applied_next latest key k line given =
    rw (any-one_line (λ l. l == k) latest key line)
      (ground (arith, eq_iff key k, eq_iff k key, eq_iff k ""))

dump_applied-remembered :
    (latest key k : String)
    → one_line key ≡ true
    → (key == "") ≡ false
    → dump_applied (remembered latest key) k ≡ (dump_applied latest k || k == key)
unfolding remembered
dump_applied-remembered latest key k line given = elim (Bool-cases (dump_applied latest key)) [
  | inl here ↦ rw here (applied_same latest key k here)
  | inr absent ↦ rw absent (elim (Bool-cases (latest == "")) [
    | inl blank ↦ rw blank (
        subst (λ n. dump_applied key k ≡ (dump_applied n k || k == key))
          (sym ((eq_iff latest "").0 blank)) (applied_first key k line given))
    | inr some_text ↦ rw some_text (applied_next latest key k line given)
  ])
]

-- What a call for a key gives, by what its read and its update answer.
abbrev pub IsRecorded : Fallible String → Option String → String → Fallible String → Type 0
IsRecorded (err e) update key r = r ≡ err e
IsRecorded (ok latest) update key (ok annotation) =
    ((dump_applied latest key ≡ true) ⊎ (update ≡ none))
    × ((k : String) → dump_applied annotation k ≡ (dump_applied latest k || k == key))
IsRecorded (ok latest) update key (err e) = (dump_applied latest key ≡ false) × (update ≡ some e)

-- `rememberDumpApplied` fails exactly if the read fails, or the key is not there and the update
-- fails. Else the annotation that it leaves tells that the dump of the key was applied, and tells of
-- every other key what the annotation that was read tells. This holds of a key of one line that is
-- not empty.
pub remember_dump_applied-IsRecorded :
    (read : Fallible String) (update : Option String) (key : String)
    → one_line key ≡ true
    → (key == "") ≡ false
    → IsRecorded read update key (remember_dump_applied read update key)
unfolding remember_dump_applied
remember_dump_applied-IsRecorded (err e) update key line given = refl
remember_dump_applied-IsRecorded (ok latest) update key line given =
    recorded update (dump_applied latest key) refl
  where
    recorded :
        (update : Option String) (b : Bool)
        → dump_applied latest key ≡ b
        → IsRecorded
            (ok latest)
            update
            key
            (if b then ok latest else after_update (remembered latest key) update)
    recorded update true here = (inl here, λ k. applied_same latest key k here)
    recorded none false absent = (inr refl, λ k. dump_applied-remembered latest key k line given)
    recorded (some e) false absent = (absent, refl)
