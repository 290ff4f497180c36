-- ===== src/Scale.antt =====
-- pkg/workloads/scale.go: the replicas of a workload, and the annotation that keeps the count from
-- before a freeze.
pub mod Freeze
mod Tests
use portage.Base.{
  ℕ, zero, suc, ◌+◌, ◌*◌, String, ◌==◌, ◌<>◌, Bool, true, false, Option, none, some, List, [], ◌∷◌,
  if◌then◌else◌, nat_beq, nat_text, Map, lookup, insert, get, Fallible, ok, err,
}

abbrev pub original_replicas_ann : String
original_replicas_ann = "portage.io/original-replicas"

-- A StatefulSet or a Deployment, by what is scaled. `replicas` is `none` where the pointer is nil;
-- the API server admits no number below 0.
pub record Scaled : Type 0 where
  pub replicas : Option ℕ
  pub annotations : Map String

abbrev pub current : Option ℕ → ℕ
current none = 1
current (some n) = n

abbrev remember : ℕ → Option String → Map String → Map String
remember n none annotations = insert original_replicas_ann (nat_text n) annotations
remember n (some old) annotations = annotations

-- One branch of `Scale`: the object that it updates.
unfoldable pub scale : ℕ → Scaled → Scaled
unfolding lookup insert nat_text
scale replicas o = record {
  replicas = some replicas;
  annotations =
      remember (current o.replicas) (lookup original_replicas_ann o.annotations) o.annotations;
}

-- `ScaledToZero`, of an object that was read.
unfoldable pub scaled_to_zero : Scaled → Bool
scaled_to_zero o = elim o.replicas [ none ↦ false | some n ↦ nat_beq n 0 ]

-- `OriginalReplicas`: `atoi` stands for `strconv.Atoi`, `none` for an error or a number below 0.
unfoldable pub original_replicas : (String → Option ℕ) → Map String → ℕ
unfolding get
original_replicas atoi annotations = current (atoi (get "" original_replicas_ann annotations))
