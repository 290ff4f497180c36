-- ===== src/Scratch/Spared.antt =====
-- The pods that are taken off the scratch claims.
use text.Mathlib.TextEquality.{eq_iff}
use portage.Base.{
  any, sym, Option, none, some, String, ◌==◌, ◌≡◌, refl, ◌↔◌, ◌⊎◌, inl, inr, true, false, not, ◌||◌,
  List, [], ◌∷◌, Some, arith, if◌then◌else◌, is_empty, ok, Bool-cases,
}
use portage.Kube.{PersistentVolumeClaim}
use portage.Classify.Pods.{seen}
use portage.Scratch.{
  Pod, Evicted, Reply, pod_mounts_scratch, is_backup_tool_pod, is_volsync_mover, job_owner,
  evict_one, evict_from, mounts_one, scratch_of, protect_scratch_pvcs,
}

-- A pod of a backup tool that mounts one of the claims, and that VolSync does not run.
abbrev pub IsHolder : List String → Pod → Type 0
IsHolder scratch pod =
    (pod_mounts_scratch scratch pod ≡ true)
    × ((is_backup_tool_pod pod ≡ true) × (is_volsync_mover pod ≡ false))

tool-IsHolder :
    (scratch : List String) (pod : Pod)
    → ((not (pod_mounts_scratch scratch pod) || not (is_backup_tool_pod pod)) ≡ false)
      ↔ IsHolder scratch pod
unfolding is_backup_tool_pod
tool-IsHolder scratch pod = ground arith

mounts-nil : (volumes : List (Option String)) → any (mounts_one []) volumes ≡ false
mounts-nil [] = refl
mounts-nil (none ∷ volumes) = mounts-nil volumes
mounts-nil (some claim ∷ volumes) = mounts-nil volumes

evict_from-nil : (pods : List Pod) → evict_from [] pods ≡ ([], [])
unfolding evict_from pod_mounts_scratch
evict_from-nil [] = refl
evict_from-nil (pod ∷ pods) = rw (mounts-nil pod.spec.volumes) (evict_from-nil pods)

module _ (scratch : List String) (name : String) where
  evict_one-jobs :
      (job : String) (pod : Pod) (e : Evicted)
      → (seen name (evict_one job pod e).1 ≡ true)
        ↔ (((job == "") ≡ false) × ((job == name) ≡ true)) ⊎ (seen name e.1 ≡ true)
  evict_one-jobs job pod (pods, jobs) = ground (arith, eq_iff job name)

  evict_one-pods :
      (job : String) (pod : Pod) (e : Evicted)
      → (seen name (evict_one job pod e).0 ≡ true)
        ↔ (((job == "") ≡ true) × ((pod.name == name) ≡ true)) ⊎ (seen name e.0 ≡ true)
  evict_one-pods job pod (pods, jobs) = ground arith

  -- The pod of a tool that belongs to no job, under the name.
  abbrev pub IsPod : Pod → Type 0
  IsPod pod = IsHolder scratch pod × (((job_owner pod == "") ≡ true) × ((pod.name == name) ≡ true))

  -- A pod of a tool that the job of the name owns.
  abbrev pub IsOfJob : Pod → Type 0
  IsOfJob pod =
      IsHolder scratch pod × (((job_owner pod == "") ≡ false) × ((job_owner pod == name) ≡ true))

  evict_from-pods :
      (pods : List Pod) → (seen name (evict_from scratch pods).0 ≡ true) ↔ Some IsPod pods
  unfolding evict_from
  evict_from-pods [] = ground arith
  evict_from-pods (pod ∷ pods) =
      elim (Bool-cases (not (pod_mounts_scratch scratch pod) || not (is_backup_tool_pod pod))) [
        | inl other ↦ rw other (ground (arith, evict_from-pods pods, tool-IsHolder scratch pod))
        | inr holds ↦ rw holds (
            ground (
              arith,
              evict_from-pods pods,
              tool-IsHolder scratch pod,
              evict_one-pods (job_owner pod) pod (evict_from scratch pods),
            ))
      ]

  evict_from-jobs :
      (pods : List Pod) → (seen name (evict_from scratch pods).1 ≡ true) ↔ Some IsOfJob pods
  unfolding evict_from
  evict_from-jobs [] = ground arith
  evict_from-jobs (pod ∷ pods) =
      elim (Bool-cases (not (pod_mounts_scratch scratch pod) || not (is_backup_tool_pod pod))) [
        | inl other ↦ rw other (ground (arith, evict_from-jobs pods, tool-IsHolder scratch pod))
        | inr holds ↦ rw holds (
            ground (
              arith,
              evict_from-jobs pods,
              tool-IsHolder scratch pod,
              evict_one-jobs (job_owner pod) pod (evict_from scratch pods),
            ))
      ]

on_scratch :
    (scratch : List String) (pods : List Pod)
    → (if not (is_empty scratch) then evict_from scratch pods else ([], []))
      ≡ evict_from scratch pods
on_scratch [] pods = sym (evict_from-nil pods)
on_scratch (s ∷ scratch) pods = refl

-- A pod is deleted exactly if it mounts a scratch claim of the list, is one of a backup tool and not
-- a mover of VolSync, and no job owns it; a job is deleted exactly if it owns such a pod. (The names
-- are those of the namespace, and the list of pods was read.)
pub protect_scratch_pvcs-IsSpared :
    (read : String → Reply) (update : PersistentVolumeClaim → Reply) (pods : List Pod)
    (pvcs : List PersistentVolumeClaim) (name : String)
    → let gone = (protect_scratch_pvcs read update (ok pods) pvcs).1 in
      ((seen name gone.0 ≡ true) ↔ Some (IsPod (scratch_of pvcs) name) pods)
      × ((seen name gone.1 ≡ true) ↔ Some (IsOfJob (scratch_of pvcs) name) pods)
unfolding protect_scratch_pvcs
protect_scratch_pvcs-IsSpared read update pods pvcs name =
    rw (on_scratch (scratch_of pvcs) pods)
      (evict_from-pods (scratch_of pvcs) name pods, evict_from-jobs (scratch_of pvcs) name pods)
