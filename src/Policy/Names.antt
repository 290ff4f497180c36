-- ===== src/Policy/Names.antt =====
-- The names that the Policy reconciler reserves for its Actions.
use text.Mathlib.TextLemmas.{append_cancel_left, append_assoc}
use portage.Base.{
  ℕ, ◌-◌, ◌/◌, ◌≤◌, ◌<◌, String, ◌<>◌, ◌≡◌, ◌≢◌, ◌↔◌, refl, sym, ap, ◌∙◌, arith, text_length, clip,
  at_most, text_length-at_most, at_most-append, ◌==◌, eq_iff, true, false, at_most_self,
  clip-at_most, text_length-append, nat_text, nat_text-injective,
}
use portage.Api.{Time, Duration}
use portage.Policy.{replicate_name, auto_restore_name, rpo_backup_name, truncate, unix_text}

-- The start of the window of a time, in seconds from 1970.
abbrev pub slot : Time → Duration → ℕ
slot t d = truncate t d / 1_000_000_000 - 62_135_596_800

-- The window starts at or after 1970.
abbrev pub IsModern : Time → Duration → Type 0
IsModern t d = 62_135_596_800 ≤ truncate t d / 1_000_000_000

abbrev full_name : String → Time → Duration → String
full_name policy t d = "backup-" <> policy <> "-" <> unix_text (truncate t d)

unix_text_modern :
    (t : Time) (d : Duration) → IsModern t d → unix_text (truncate t d) ≡ nat_text (slot t d)
unix_text_modern t d h = ground arith

same_slot :
    (policy : String) (t u : Time) (d : Duration)
    → IsModern t d
    → IsModern u d
    → full_name policy t d ≡ full_name policy u d
    → slot t d ≡ slot u d
same_slot policy t u d h k e = nat_text-injective (slot t d) (slot u d) (
    sym (unix_text_modern t d h)
    ∙ append_cancel_left "-" _ _
        (append_cancel_left policy _ _ (append_cancel_left "backup-" _ _ e))
    ∙ unix_text_modern u d k)

-- Of a Policy whose backup names fit in 63 characters, two passes name the same Backup Action exactly
-- if the windows of the RPO in which they fall start in the same second; the windows start at or
-- after 1970.
pub rpo_backup_name_iff :
    (policy : String) (t u : Time) (d : Duration)
    → IsModern t d
    → IsModern u d
    → text_length ("backup-" <> policy <> "-" <> unix_text (truncate t d)) ≤ 63
    → text_length ("backup-" <> policy <> "-" <> unix_text (truncate u d)) ≤ 63
    → (rpo_backup_name policy t d ≡ rpo_backup_name policy u d) ↔ (slot t d ≡ slot u d)
unfolding rpo_backup_name
rpo_backup_name_iff policy t u d h k short_t short_u = (
  λ e. same_slot policy t u d h k (sym (at_most_self 63 _ short_t) ∙ e ∙ at_most_self 63 _ short_u),
  λ e.
      ap (λ s. at_most 63 ("backup-" <> policy <> "-" <> s))
        (unix_text_modern t d h ∙ ap nat_text e ∙ sym (unix_text_modern u d k)),
)

-- Of a Policy whose name has 56 characters or more, all passes name the same Backup Action, at
-- whatever time and for whatever RPO.
pub rpo_backup_name-collides :
    (policy : String) (t u : Time) (d e : Duration)
    → 56 ≤ text_length policy
    → rpo_backup_name policy t d ≡ rpo_backup_name policy u e
unfolding rpo_backup_name
rpo_backup_name-collides policy t u d e long =
    cut (unix_text (truncate t d)) ∙ sym (cut (unix_text (truncate u e)))
  where
    long' : 63 ≤ text_length ("backup-" <> policy)
    long' = omega (arith, text_length-append "backup-" policy)

    more : (s : String) → 0 < text_length ("-" <> s)
    more s = omega (arith, text_length-append "-" s)

    cut :
        (s : String) → at_most 63 ("backup-" <> policy <> "-" <> s) ≡ clip 63 ("backup-" <> policy)
    cut s =
        ap (at_most 63) (sym (append_assoc "backup-" policy ("-" <> s)))
        ∙ at_most-append 63 ("backup-" <> policy) ("-" <> s) long' (more s)

false_ne_true : false ≢ true
false_ne_true e = cc

head : (p s t : String) → text_length p ≤ 63 → clip (text_length p) (at_most 63 ((p <> s) <> t)) ≡ p
head p s t short =
    ap (λ r. clip (text_length p) (at_most 63 r)) (append_assoc p s t)
    ∙ clip-at_most 63 p (s <> t) short

-- Two names that begin with different texts of one length are different, cut or not.
differ :
    (p q s t u v : String)
    → text_length p ≡ text_length q
    → text_length p ≤ 63
    → (p == q) ≡ false
    → at_most 63 ((p <> s) <> u) ≢ at_most 63 ((q <> t) <> v)
differ p q s t u v same short other e =
    let common : p ≡ q =
      sym (head p s u short)
      ∙ ap (clip (text_length p)) e
      ∙ ap (λ k. clip k (at_most 63 ((q <> t) <> v))) same
      ∙ head q t v (omega arith) in
    false_ne_true (sym other ∙ (eq_iff p q).1 common)

-- The names of the Actions that a pass may create all fit in 63 characters, and no two of a Replicate,
-- a Restore and a Backup Action are the same, for whatever Policies, times and RPOs.
pub names-IsReserved :
    (p q r : String) (t : Time) (d : Duration)
    → (text_length (replicate_name p) ≤ 63)
      × (text_length (auto_restore_name q) ≤ 63)
      × (text_length (rpo_backup_name r t d) ≤ 63)
      × (replicate_name p ≢ auto_restore_name q)
      × (replicate_name p ≢ rpo_backup_name r t d)
      × (auto_restore_name q ≢ rpo_backup_name r t d)
unfolding replicate_name auto_restore_name rpo_backup_name
names-IsReserved p q r t d = (
  text_length-at_most 63 _,
  text_length-at_most 63 _,
  text_length-at_most 63 _,
  differ "rep" "res" "licate-" "tore-auto-" p q refl (omega arith) refl,
  differ "rep" "bac" "licate-" "kup-" p _ refl (omega arith) refl,
  differ "res" "bac" "tore-auto-" "kup-" q _ refl (omega arith) refl,
)
