-- ===== src/Usefulness.antt =====
-- pkg/usefulness: whether an artifact is data that can be restored. Sizes are int64.
pub mod Verdict
mod Tests
use mathlib.Core.List.{reverse}
use portage.Base.{
  ℕ, String, ◌<>◌, Bool, true, false, not, ◌&&◌, ◌||◌, Option, none, some, List, [], ◌∷◌, map,
  if◌then◌else◌, nat_beq, codes, lower_code, ends_with, holds, any, is_empty, i64_add, i64_lt,
  i64_le,
}
use portage.Api.{
  WorkloadClass, stateless, generic_pvc, sql_logical, kv_logical, unknown_stateful, cluster_objects,
}
use portage.Classify.{Workload}

-- `MinLogicalBytes` and `MinVolumeBytes`
abbrev pub min_logical_bytes : ℕ
min_logical_bytes = 65536

abbrev pub min_volume_bytes : ℕ
min_volume_bytes = 65536

pub record File : Type 0 where
  pub path : String
  pub size_bytes : ℕ

pub record Input : Type 0 where
  pub class : WorkloadClass
  pub engine : String
  pub size_bytes : ℕ
  pub files : List File
  pub snapshot_ready : Bool
  pub has_snapshot : Bool

-- `movers.Artifact`
pub record Artifact : Type 0 where
  pub id : String
  pub mover : String
  pub size_bytes : ℕ
  pub useful : Bool
  pub message : String

abbrev is_slash : ℕ → Bool
is_slash c = nat_beq c b'/'

drop_slashes : List ℕ → List ℕ
drop_slashes [] = []
drop_slashes (c ∷ cs) = if is_slash c then drop_slashes cs else c ∷ cs

after_slash : List ℕ → List ℕ
after_slash [] = []
after_slash (c ∷ cs) =
    let rest = after_slash cs in if any is_slash cs then rest else if is_slash c then cs else c ∷ cs

abbrev or_root : List ℕ → List ℕ
or_root [] = b'/' ∷ []
or_root (c ∷ cs) = c ∷ cs

-- `filepath.Base`: the last element of a path.
unfoldable pub path_base : List ℕ → List ℕ
unfolding drop_slashes after_slash
path_base [] = b'.' ∷ []
path_base (c ∷ cs) = or_root (after_slash (reverse (drop_slashes (reverse (c ∷ cs)))))

unfoldable pub looks_like_dump : String → Bool
unfolding path_base
looks_like_dump path =
    let lower = map lower_code (codes path) in
    let base = map lower_code (path_base (codes path)) in
    ends_with base (codes ".sql")
    || ends_with base (codes ".rdb")
    || ends_with base (codes ".archive.gz")
    || ends_with base (codes ".archive")
    || ends_with base (codes ".dump")
    || ends_with base (codes ".bak")
    || holds lower (codes "prebackup")

abbrev pub larger : Option File → File → Option File
larger none f = some f
larger (some best) f = if i64_lt best.size_bytes f.size_bytes then some f else some best

-- The loop of `bestDump`.
unfoldable pub best_from : Option File → List File → Option File
best_from best [] = best
best_from best (f ∷ fs) = best_from (if looks_like_dump f.path then larger best f else best) fs

unfoldable pub best_dump : List File → Option File
unfolding best_from
best_dump files = best_from none files

-- `art.SizeBytes`: the size, or the sum of the files where it is 0.
unfoldable pub sum_from : ℕ → List File → ℕ
unfolding i64_add
sum_from size [] = size
sum_from size (f ∷ fs) = sum_from (i64_add size f.size_bytes) fs

unfoldable pub total : Input → ℕ
unfolding sum_from
total input =
    if nat_beq input.size_bytes 0 then sum_from input.size_bytes input.files else input.size_bytes

abbrev pub judged : ℕ → Bool → String → Artifact
judged size useful message = record {
  id = "";
  mover = "";
  size_bytes = size;
  useful = useful;
  message = message;
}

abbrev pub judge_dump : File → ℕ → Artifact
judge_dump dump size =
    if i64_le min_logical_bytes dump.size_bytes
    then judged dump.size_bytes true ("logical dump " <> dump.path)
    else judged size false ("logical dump too small (certs-only class): " <> dump.path)

abbrev pub judge_size : ℕ → Input → Artifact
judge_size size input =
    if i64_le min_logical_bytes size
    then judged size true "logical size floor met"
    else if i64_lt 0 size
    then judged size false "logical backup below size floor (likely empty or certs-only)"
    else if input.has_snapshot && input.snapshot_ready
    then judged size false "snapshot ready but no logical dump size; refusing (RequireUseful)"
    else judged size false "no useful logical dump"

abbrev pub judge_logical : Option File → ℕ → Input → Artifact
judge_logical (some dump) size input = judge_dump dump size
judge_logical none size input = judge_size size input

-- `logical`
unfoldable pub logical : ℕ → Input → Artifact
unfolding best_dump
logical size input = judge_logical (best_dump input.files) size input

abbrev pub takes_snapshots : WorkloadClass → Bool
takes_snapshots generic_pvc = true
takes_snapshots unknown_stateful = true
takes_snapshots _ = false

-- `volume`
unfoldable pub volume : ℕ → Input → Artifact
volume size input =
    if i64_le min_volume_bytes size
    then judged size true "volume size floor met"
    else if input.has_snapshot
        && input.snapshot_ready
        && nat_beq size 0
        && takes_snapshots input.class
    then judged size true "CSI snapshot ReadyToUse (size unknown)"
    else if i64_lt 0 size
    then judged size false "volume backup below size floor"
    else judged size false "no useful volume artifact"

-- The `switch` of `Evaluate` on the class; the last clause is `default`.
unfoldable pub by_class : WorkloadClass → ℕ → Input → Artifact
unfolding logical volume
by_class stateless size input = judged size true "stateless"
by_class cluster_objects size input =
    if nat_beq size 0 && is_empty input.files
    then judged size false "no object-graph snapshot"
    else judged size true "object-graph snapshot"
by_class sql_logical size input = logical size input
by_class kv_logical size input = logical size input
by_class _ size input = volume size input

-- `Evaluate`
unfoldable pub evaluate : Input → Artifact
unfolding by_class total
evaluate input = by_class input.class (total input) input

-- `ForWorkload`
unfoldable pub for_workload : Workload → Input → Artifact
unfolding evaluate
for_workload w input = evaluate (record input { class = w.class; engine = w.engine })
