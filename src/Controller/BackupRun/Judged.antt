-- ===== src/Controller/BackupRun/Judged.antt =====
-- How a reconcile of a Backup Action ends.
use portage.Base.{
  String, ◌≡◌, refl, ◌↔◌, true, Option, none, some, List, [], ◌∷◌, All, Some, arith, Fallible, ok,
  err, Bool-cases, inl, inr, sym, ap, ◌∙◌, if◌then◌else◌, ◌≢◌,
}
use portage.Api.{ArtifactHealth, catching_up, succeeded}
use portage.Classify.{Inventory}
use portage.Movers.{Registry}
use portage.Restore.{Result}
use portage.Backup.{healthy}
use portage.Backup.Health.{healthy-IsReport}
use portage.Backup
use portage.Policy.Verdict.{HasCopy}
use portage.Controller.Failover.{Overrides}
use portage.Controller.BackupRun.{
  Answers, artifacts, is_waiting, first_waiting, verdict, on_waiting, run_backup, after_write,
}

-- The artifact is not complete yet, by its message.
abbrev pub IsPending : ArtifactHealth → Type 0
IsPending art = is_waiting art ≡ true

-- How a result follows from the artifacts that were made.
pub record IsConcluded (arts : List ArtifactHealth) (inv : Inventory) (r : Result) : Type 0 where
  pub waits : (r.phase ≡ catching_up) ↔ Some IsPending arts
  pub won : (r.phase ≡ succeeded) ↔ ((Some IsPending arts → ⊥) × All (HasCopy arts) inv.workloads)
  pub ends : (r.terminal ≡ true) ↔ (Some IsPending arts → ⊥)

first_waiting-some :
    (arts : List ArtifactHealth) (art : ArtifactHealth)
    → first_waiting arts ≡ some art
    → Some IsPending arts
unfolding first_waiting
first_waiting-some [] art eq = ground arith
first_waiting-some (b ∷ arts) art eq = elim (Bool-cases (is_waiting b)) [
  | inl here ↦ inl here
  | inr other ↦ inr (
      first_waiting-some arts art
        (sym (ap (λ p. if p then some b else first_waiting arts) other) ∙ eq))
]

first_waiting-none :
    (arts : List ArtifactHealth) → first_waiting arts ≡ none → Some IsPending arts → ⊥
unfolding first_waiting
first_waiting-none [] eq h = h
first_waiting-none (b ∷ arts) eq (inl here) = ground arith
first_waiting-none (b ∷ arts) eq (inr h) = first_waiting-none arts (ground arith) h

module _ (movers : Registry) (overrides : Overrides) (a : Answers) (inv : Inventory) where
  abbrev made : List ArtifactHealth
  made = artifacts movers overrides a inv

  verdict-won :
      ((verdict movers overrides a inv).phase ≡ succeeded) ↔ All (HasCopy made) inv.workloads
  unfolding Backup.advance healthy
  verdict-won = ground (arith, (healthy-IsReport inv made).0)

  verdict-ends : (verdict movers overrides a inv).terminal ≡ true
  unfolding Backup.advance
  verdict-ends = ground arith

  verdict-settled : (verdict movers overrides a inv).phase ≢ catching_up
  unfolding Backup.advance
  verdict-settled = ground arith

  on_waiting-IsConcluded :
      (first : Option ArtifactHealth)
      → first_waiting made ≡ first
      → IsConcluded made inv (on_waiting movers overrides a inv first)
  on_waiting-IsConcluded none eq =
      let calm = first_waiting-none made eq in
      record {
        waits = (λ at. absurd (verdict-settled at), λ h. absurd (calm h));
        won = (λ at. (calm, verdict-won.0 at), λ h. verdict-won.1 h.1);
        ends = (λ _. calm, λ _. verdict-ends);
      }
  on_waiting-IsConcluded (some art) eq =
      let waits = first_waiting-some made art eq in
      record {
        waits = (λ _. waits, λ _. refl);
        won = (λ at. ground arith, λ h. absurd (h.0 waits));
        ends = (λ at. ground arith, λ h. absurd (h waits));
      }

  -- What a reconcile of the Action gives, by the error of the write of its artifacts.
  abbrev pub IsJudgedBy : Option String → Fallible Result → Type 0
  IsJudgedBy (some e) (err f) = f ≡ e
  IsJudgedBy none (ok r) = IsConcluded made inv r
  IsJudgedBy _ _ = ⊥

  after_write-IsJudgedBy :
      (write : Option String) → IsJudgedBy write (after_write movers overrides a inv write)
  after_write-IsJudgedBy (some e) = refl
  after_write-IsJudgedBy none = on_waiting-IsConcluded (first_waiting made) refl

  -- A reconcile of a Backup Action fails exactly if its artifacts cannot be written to the Policy,
  -- with that error. Otherwise it is in phase CatchingUp exactly if the message of some artifact
  -- says that VolSync is waited for. It is in phase Succeeded exactly if none does and every
  -- workload of the inventory is stateless or the last artifact of its key is useful. It ends
  -- exactly if none is waited for.
  pub run_backup-IsJudgedBy : IsJudgedBy a.write_error (run_backup movers overrides a inv)
  unfolding run_backup
  run_backup-IsJudgedBy = after_write-IsJudgedBy a.write_error
