-- ===== src/Cutover/Live.antt =====
-- What lets a cutover through: observations under which every workload is restored and wanted.
use portage.Base.{
  has_prefix, ◌≡◌, refl, ◌⊎◌, inl, inr, true, false, Bool, Option, some, none, List, [], ◌∷◌, map,
  All, Map, get, lookup, arith, String, index_from, find_last-All, lookup-index_from, or_else-none,
  Some,
}
use portage.Api.{WorkloadActionStatus, no_status, is_stateless, succeeded}
use portage.Classify.{Workload}
use portage.Classify
use portage.Actionphase.{skipped, IsRestored, can_succeed}
use portage.Actionphase.Gate.{can_succeed_iff}
use portage.Restore.{ProbeResult}
use portage.Cutover.{Facts, held_up, wait_ready, seed_one, seed_list, seed}
use portage.Cutover.Success.{held_up-none_iff}

abbrev pub is_ok : Option ProbeResult → Bool
is_ok none = false
is_ok (some p) = p.ok

-- The observations say that a workload runs on dest and holds its data.
pub record IsLive (ready : Map Bool) (probes : Map ProbeResult) (w : Workload) : Type 0 where
  pub up : get false (Classify.key w) ready ≡ true
  pub attested : (is_stateless w.class ≡ true) ⊎ (is_ok (lookup (Classify.key w) probes) ≡ true)

-- The observations are of the workloads `w ∷ ws`, with answers of dest, and neither of a dry run nor of
-- a rollback.
pub record IsSeen (w : Workload) (ws : List Workload) (f : Facts) : Type 0 where
  pub ready : Map Bool
  pub probes : Map ProbeResult
  pub inventory : f.inventory ≡ w ∷ ws
  pub seen_ready : f.ready ≡ some ready
  pub seen_probes : f.probes ≡ some probes
  pub real : f.dry_run ≡ false
  pub kept : f.rollback ≡ false

abbrev pub IsWanted : WorkloadActionStatus → Type 0
IsWanted st = skipped st ≡ false

no_status-IsWanted : IsWanted no_status
unfolding skipped has_prefix
no_status-IsWanted = refl

found-IsWanted :
    (k : String) (existing : List WorkloadActionStatus)
    → All IsWanted existing
    → IsWanted (get no_status k (index_from (λ st. st.key) [] existing))
unfolding get lookup
found-IsWanted k existing h =
    rw (lookup-index_from (λ st. st.key) k [] existing, or_else-none)
      (find_last-All IsWanted (λ st. st.key) k no_status existing no_status-IsWanted h)

module _ (ready : Map Bool) (probes : Map ProbeResult) (f : Facts)
    (seen_ready : f.ready ≡ some ready) (seen_probes : f.probes ≡ some probes) where
  seed_one-IsRestored :
      (by_key : Map WorkloadActionStatus) (w : Workload)
      → IsLive ready probes w
      → IsRestored (seed_one f by_key w)
  unfolding seed_one
  seed_one-IsRestored by_key w h = ground arith

  seed_one-IsWanted :
      (by_key : Map WorkloadActionStatus) (w : Workload)
      → IsWanted (get no_status (Classify.key w) by_key)
      → IsWanted (seed_one f by_key w)
  unfolding seed_one skipped
  seed_one-IsWanted by_key w h = ground arith

  seed-IsRestored :
      (by_key : Map WorkloadActionStatus) (ws : List Workload)
      → All (IsLive ready probes) ws
      → All IsRestored (map (seed_one f by_key) ws)
  seed-IsRestored by_key [] h = tt
  seed-IsRestored by_key (w ∷ ws) (h, hs) =
      (seed_one-IsRestored by_key w h, seed-IsRestored by_key ws hs)

  seed-IsWanted :
      (existing : List WorkloadActionStatus) (ws : List Workload)
      → All IsWanted existing
      → All IsWanted (map (seed_one f (index_from (λ st. st.key) [] existing)) ws)
  seed-IsWanted existing [] h = tt
  seed-IsWanted existing (w ∷ ws) h = (
    seed_one-IsWanted _ w (found-IsWanted (Classify.key w) existing h),
    seed-IsWanted existing ws h,
  )

-- Workloads that are all restored and wanted pass both checks of the last phases.
pub record IsDone (sts : List WorkloadActionStatus) : Type 0 where
  pub restored : All IsRestored sts
  pub wanted : All IsWanted sts
  pub counted : Some IsWanted sts

IsDone-IsComplete :
    (sts : List WorkloadActionStatus)
    → All IsRestored sts
    → All (λ w. (skipped w ≡ true) ⊎ IsRestored w) sts
IsDone-IsComplete [] _ = tt
IsDone-IsComplete (st ∷ sts) (h, hs) = (inr h, IsDone-IsComplete sts hs)

pub wait_ready_of_IsDone :
    (sts : List WorkloadActionStatus) (f : Facts)
    → IsDone sts
    → (wait_ready (held_up sts) sts f.now).phase ≡ succeeded
wait_ready_of_IsDone sts f h =
    let passed : (can_succeed sts).0 ≡ true =
      (can_succeed_iff sts).1
        (record { each = IsDone-IsComplete sts h.restored; some_restored = h.counted }) in
    rw ((held_up-none_iff sts).1 h.restored) (ground arith)

module _ {w : Workload} {ws : List Workload} {f : Facts} (seen : IsSeen w ws f)
    (existing : List WorkloadActionStatus) (wanted : All IsWanted existing) where
  pub seed-AreWanted : All IsWanted (seed existing f)
  unfolding seed
  seed-AreWanted =
      rw (seen.inventory, seed_list)
        (seed-IsWanted seen.ready seen.probes f seen.seen_ready seen.seen_probes existing (w ∷ ws)
          wanted)

  pub seed-IsDone : All (IsLive seen.ready seen.probes) (w ∷ ws) → IsDone (seed existing f)
  unfolding seed
  seed-IsDone live =
      rw (seen.inventory, seed_list)
        (record {
          restored =
              seed-IsRestored seen.ready seen.probes f seen.seen_ready seen.seen_probes _ (w ∷ ws)
                live;
          wanted =
              seed-IsWanted seen.ready seen.probes f seen.seen_ready seen.seen_probes existing
                (w ∷ ws) wanted;
          counted =
              inl
                (seed-IsWanted seen.ready seen.probes f seen.seen_ready seen.seen_probes existing
                  (w ∷ ws) wanted).0;
        })
