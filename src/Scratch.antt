-- ===== src/Scratch.antt =====
-- pkg/movers/volsync/scratch.go: the marks that keep backup tools off the scratch claims of VolSync, and
-- the pods of such tools that hold one.
pub mod Marked
pub mod Spared
mod Tests
use portage.Base.{
  String, ◌==◌, ◌<>◌, Bool, true, false, not, ◌&&◌, ◌||◌, Option, none, some, List, [], ◌∷◌, ◌++◌,
  if◌then◌else◌, any, get, insert, Map, has_prefix, contains_fold, Fallible, ok, err, is_empty,
}
use portage.Kube.{PodSpec, Container, OwnerReference, PersistentVolumeClaim}
use portage.Classify.Pods.{seen, is_mover_scratch_pvc}

-- The maps that `ensureScratchMarks` ranges over; their order does not matter, as no key is there
-- twice.
abbrev pub annotation_marks : Map String
annotation_marks =
    ("k8up.io/backup", "false")
    ∷ ("k8up.synextreme.com/backup", "false")
    ∷ ("backup.appuio.io/backup", "false")
    ∷ ("stash.appscode.com/skip", "true")
    ∷ []

abbrev pub label_marks : Map String
label_marks = ("velero.io/exclude-from-backup", "true") ∷ ("portage.io/scratch", "true") ∷ []

-- A loop of `ensureScratchMarks`, and whether it changed the map.
unfoldable pub mark_from : Map String → Map String → Map String × Bool
unfolding get insert
mark_from [] m = (m, false)
mark_from ((k, v) ∷ marks) m =
    let differs = not (get "" k m == v) in
    let (marked, changed) = mark_from marks (if differs then insert k v m else m) in
    (marked, differs || changed)

-- `ensureScratchMarks`: the claim that it leaves, and whether it changed it.
unfoldable pub ensure_scratch_marks : PersistentVolumeClaim → PersistentVolumeClaim × Bool
unfolding mark_from
ensure_scratch_marks pvc =
    let (annotations, noted) = mark_from annotation_marks pvc.annotations in
    let (labels, labelled) = mark_from label_marks pvc.labels in
    (record pvc { annotations = annotations; labels = labels }, noted || labelled)

-- What a call for a claim answers: `gone` is an error that `IsNotFound` holds of.
pub data Reply : Type 0 where
  fine : PersistentVolumeClaim → Reply
  gone : Reply
  refused : String → Reply

-- The claim that is written, if one is, and the error that is kept.
abbrev pub Mark : Type 0
Mark = Option PersistentVolumeClaim × Option String

abbrev pub after_update : Reply → Option String
after_update (refused e) = some e
after_update _ = none

-- `markScratchPVC`, given the answers to its read and its update; that a claim is gone is no error.
abbrev pub after_read : (PersistentVolumeClaim → Reply) → Reply → Mark
after_read update (fine cur) =
    let (marked, changed) = ensure_scratch_marks cur in
    if not changed then (none, none) else (some marked, after_update (update marked))
after_read update gone = (none, none)
after_read update (refused e) = (none, some e)

unfoldable pub mark_scratch_pvc :
    (String → Reply) → (PersistentVolumeClaim → Reply) → PersistentVolumeClaim → Mark
unfolding ensure_scratch_marks
mark_scratch_pvc read update pvc = after_read update (read pvc.name)

-- The names of scratch claims in a list of claims.
unfoldable pub scratch_of : List PersistentVolumeClaim → List String
unfolding is_mover_scratch_pvc
scratch_of [] = []
scratch_of (pvc ∷ pvcs) =
    let rest = scratch_of pvcs in if is_mover_scratch_pvc pvc then pvc.name ∷ rest else rest

unfoldable pub marks_of :
    (String → Reply) → (PersistentVolumeClaim → Reply) → List PersistentVolumeClaim → List Mark
unfolding is_mover_scratch_pvc mark_scratch_pvc
marks_of read update [] = []
marks_of read update (pvc ∷ pvcs) =
    let rest = marks_of read update pvcs in
    if not (is_mover_scratch_pvc pvc) then rest else mark_scratch_pvc read update pvc ∷ rest

-- A pod by what is read of it.
pub record Pod : Type 0 where
  pub name : String
  pub labels : Map String
  pub owner_references : List OwnerReference
  pub spec : PodSpec

abbrev pub mounts_one : List String → Option String → Bool
mounts_one scratch none = false
mounts_one scratch (some claim) = seen claim scratch

-- `podMountsScratch`
unfoldable pub pod_mounts_scratch : List String → Pod → Bool
pod_mounts_scratch scratch pod = any (mounts_one scratch) pod.spec.volumes

unfoldable pub job_owner_from : List OwnerReference → String
job_owner_from [] = ""
job_owner_from (o ∷ os) =
    if o.kind == "Job" && not (o.name == "") then o.name else job_owner_from os

-- `jobOwner`
unfoldable pub job_owner : Pod → String
unfolding job_owner_from
job_owner pod = job_owner_from pod.owner_references

abbrev has_label : Pod → String → Bool
has_label pod name = not (get "" name pod.labels == "")

abbrev is_tool : String → Bool
is_tool name = name == "k8up" || name == "velero" || name == "stash"

abbrev is_tool_image : Container → Bool
is_tool_image c =
    contains_fold c.image "k8up" || contains_fold c.image "velero" || contains_fold c.image "stash"

abbrev pub is_volsync_mover : Pod → Bool
is_volsync_mover pod = has_prefix pod.name "volsync-src-" || has_prefix pod.name "volsync-dst-"

-- `isBackupToolPod`
unfoldable pub is_backup_tool_pod : Pod → Bool
unfolding get has_prefix contains_fold
is_backup_tool_pod pod =
    not (is_volsync_mover pod)
    && (has_label pod "k8up.io/type"
        || has_label pod "k8upjob"
        || is_tool (get "" "app.kubernetes.io/managed-by" pod.labels)
        || has_label pod "velero.io/backup-name"
        || has_label pod "velero.io/restore-name"
        || has_prefix pod.name "backup-"
        || any is_tool_image (pod.spec.init_containers ++ pod.spec.containers))

-- The pods and the jobs that are deleted.
abbrev pub Evicted : Type 0
Evicted = List String × List String

-- `evictBackupPodsFromScratch`, where the list of pods is read. The jobs are those of a set: the
-- code deletes each once, in no order.
abbrev pub evict_one : String → Pod → Evicted → Evicted
evict_one job pod (pods, jobs) =
    if not (job == "")
    then (pods, if seen job jobs then jobs else job ∷ jobs)
    else (pod.name ∷ pods, jobs)

unfoldable pub evict_from : List String → List Pod → Evicted
unfolding pod_mounts_scratch is_backup_tool_pod job_owner
evict_from scratch [] = ([], [])
evict_from scratch (pod ∷ pods) =
    let rest = evict_from scratch pods in
    if not (pod_mounts_scratch scratch pod) || not (is_backup_tool_pod pod)
    then rest
    else evict_one (job_owner pod) pod rest

abbrev pub on_pods : List String → Fallible (List Pod) → Evicted
on_pods scratch (err e) = ([], [])
on_pods scratch (ok pods) = evict_from scratch pods

-- `ProtectScratchPVCs` in a namespace with a client, once the claims are listed.
unfoldable pub protect_scratch_pvcs :
    (String → Reply)
    → (PersistentVolumeClaim → Reply)
    → Fallible (List Pod)
    → List PersistentVolumeClaim
    → List Mark × Evicted
unfolding scratch_of marks_of evict_from
protect_scratch_pvcs read update pods pvcs =
    let scratch = scratch_of pvcs in
    (marks_of read update pvcs, if not (is_empty scratch) then on_pods scratch pods else ([], []))
