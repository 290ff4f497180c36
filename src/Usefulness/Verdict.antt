-- ===== src/Usefulness/Verdict.antt =====
-- What makes an artifact useful, class by class.
use portage.Base.{
  ℕ, ◌≡◌, refl, ◌↔◌, ◌⊎◌, inl, inr, true, false, Bool, ◌||◌, ◌&&◌, Option, some, none, List, [],
  ◌∷◌, All, Some, arith, any, i64_le, i64_le-max, nat_beq, is_empty, if◌then◌else◌, Bool-cases,
  is_some,
}
use portage.Api.{WorkloadClass, stateless, sql_logical, kv_logical, cluster_objects}
use portage.Usefulness.{
  File, Input, looks_like_dump, larger, best_from, best_dump, total, logical, volume, by_class,
  evaluate, takes_snapshots, min_logical_bytes, min_volume_bytes, judge_logical,
}

abbrev is_big : Option File → Bool
is_big none = false
is_big (some f) = i64_le min_logical_bytes f.size_bytes

abbrev is_big_dump : File → Bool
is_big_dump f = looks_like_dump f.path && i64_le min_logical_bytes f.size_bytes

larger-is_big :
    (best : Option File) (f : File)
    → is_big (larger best f) ≡ (is_big best || i64_le min_logical_bytes f.size_bytes)
larger-is_big none f = refl
larger-is_big (some b) f = ground (arith, i64_le-max min_logical_bytes b.size_bytes f.size_bytes)

larger-is_some : (best : Option File) (f : File) → is_some (larger best f) ≡ true
larger-is_some none f = refl
larger-is_some (some b) f = ground arith

-- The best dump is big exactly if some dump is.
best_from-is_big :
    (best : Option File) (fs : List File)
    → is_big (best_from best fs) ≡ (is_big best || any is_big_dump fs)
unfolding best_from
best_from-is_big best [] = ground arith
best_from-is_big best (f ∷ fs) = elim (Bool-cases (looks_like_dump f.path)) [
  | inl dump ↦ rw (dump, best_from-is_big (larger best f) fs, larger-is_big best f) (ground arith)
  | inr other ↦ rw (other, best_from-is_big best fs) (ground arith)
]

best_from-is_some :
    (best : Option File) (fs : List File)
    → is_some (best_from best fs) ≡ (is_some best || any (λ f. looks_like_dump f.path) fs)
unfolding best_from
best_from-is_some best [] = ground arith
best_from-is_some best (f ∷ fs) = elim (Bool-cases (looks_like_dump f.path)) [
  | inl dump ↦ rw (dump, best_from-is_some (larger best f) fs, larger-is_some best f) (ground arith)
  | inr other ↦ rw (other, best_from-is_some best fs) (ground arith)
]

-- Some file is a dump, by its name, of at least the floor.
abbrev pub HasDump : Input → Type 0
HasDump input =
    Some (λ f. (looks_like_dump f.path ≡ true) × (i64_le min_logical_bytes f.size_bytes ≡ true))
      input.files

-- No file is a dump, by its name.
abbrev pub HasNoDump : Input → Type 0
HasNoDump input = All (λ f. looks_like_dump f.path ≡ false) input.files

-- What an artifact must hold, by the class of its workload.
abbrev pub HoldsData : WorkloadClass → Input → Type 0
HoldsData stateless input = Unit
HoldsData cluster_objects input = (nat_beq (total input) 0 ≡ false) ⊎ (is_empty input.files ≡ false)
HoldsData sql_logical input =
    HasDump input ⊎ (HasNoDump input × (i64_le min_logical_bytes (total input) ≡ true))
HoldsData kv_logical input =
    HasDump input ⊎ (HasNoDump input × (i64_le min_logical_bytes (total input) ≡ true))
HoldsData class input =
    (i64_le min_volume_bytes (total input) ≡ true)
    ⊎ ((input.has_snapshot ≡ true)
        × (input.snapshot_ready ≡ true)
        × (total input ≡ 0)
        × (takes_snapshots input.class ≡ true))

Some-dump_iff :
    (fs : List File)
    → (any is_big_dump fs ≡ true)
      ↔ Some
          (λ f. (looks_like_dump f.path ≡ true) × (i64_le min_logical_bytes f.size_bytes ≡ true))
          fs
Some-dump_iff [] = ground arith
Some-dump_iff (f ∷ fs) = ground (arith, Some-dump_iff fs)

All-no_dump_iff :
    (fs : List File)
    → (any (λ f. looks_like_dump f.path) fs ≡ false) ↔ All (λ f. looks_like_dump f.path ≡ false) fs
All-no_dump_iff [] = ground arith
All-no_dump_iff (f ∷ fs) = ground (arith, All-no_dump_iff fs)

big_dump-dump :
    (fs : List File) → any is_big_dump fs ≡ true → any (λ f. looks_like_dump f.path) fs ≡ true
big_dump-dump [] h = cc
big_dump-dump (f ∷ fs) h = ground (arith, big_dump-dump fs)

judge_logical-useful :
    (dump : Option File) (size : ℕ) (input : Input)
    → (judge_logical dump size input).useful
      ≡ (if is_some dump then is_big dump else i64_le min_logical_bytes size)
judge_logical-useful none size input = ground arith
judge_logical-useful (some dump) size input = ground arith

module _ (input : Input) where
  logical_iff :
      ((logical (total input) input).useful ≡ true)
      ↔ (HasDump input ⊎ (HasNoDump input × (i64_le min_logical_bytes (total input) ≡ true)))
  unfolding logical best_dump
  logical_iff = ground (
    arith,
    judge_logical-useful (best_dump input.files) (total input) input,
    best_from-is_big none input.files,
    best_from-is_some none input.files,
    Some-dump_iff input.files,
    All-no_dump_iff input.files,
    big_dump-dump input.files,
  )

  volume_iff : ((volume (total input) input).useful ≡ true) ↔ (
      (i64_le min_volume_bytes (total input) ≡ true)
      ⊎ ((input.has_snapshot ≡ true)
          × (input.snapshot_ready ≡ true)
          × (total input ≡ 0)
          × (takes_snapshots input.class ≡ true)))
  unfolding volume
  volume_iff = ground arith

  by_class_iff :
      (class : WorkloadClass)
      → ((by_class class (total input) input).useful ≡ true) ↔ HoldsData class input
  unfolding by_class
  by_class_iff stateless = ground arith
  by_class_iff cluster_objects = ground arith
  by_class_iff sql_logical = logical_iff
  by_class_iff kv_logical = logical_iff
  by_class_iff _ = volume_iff

  -- `Evaluate` finds an artifact useful exactly if it holds data, by class: nothing of a stateless
  -- workload; a size or a file of the object graph; of SQL and KV engines a dump of at least 64
  -- KiB, or, where no file is named as a dump, 64 KiB in all; of any other 64 KiB in all, or,
  -- of a generic or unknown volume of unknown size, a snapshot that is ready.
  pub evaluate_iff : ((evaluate input).useful ≡ true) ↔ HoldsData input.class input
  unfolding evaluate
  evaluate_iff = by_class_iff input.class
