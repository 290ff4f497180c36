-- ===== src/Scratch/Tests.antt =====
-- A scratch claim that a backup tool holds.
use portage.Base.{◌≡◌, ◌↔◌, refl, true, none, some, [], ◌∷◌, Some, ok, get, lookup}
use portage.Kube.{PersistentVolumeClaim}
use portage.Classify.Pods.{seen}
use portage.Scratch.{Pod, fine, ensure_scratch_marks, protect_scratch_pvcs, scratch_of}
use portage.Scratch.Marked.{IsMarked, ensure_scratch_marks-IsMarked}
use portage.Scratch.Spared.{IsPod, IsOfJob, protect_scratch_pvcs-IsSpared}

abbrev cache : PersistentVolumeClaim
cache = record {
  name = "volsync-portage-db-cache";
  namespace = "shop";
  uid = "";
  resource_version = "";
  generation = 0;
  managed_fields = [];
  labels = ("app.kubernetes.io/created-by", "volsync") ∷ [];
  annotations = ("k8up.io/backup", "true") ∷ [];
  owner_references = [];
  volume_name = "";
  storage_class_name = none;
  selector = none;
  data_source = none;
  data_source_ref = none;
  phase = "Bound";
}

abbrev backup_pod : Pod
backup_pod = record {
  name = "backup-shop-1";
  labels = [];
  owner_references = record { api_version = "batch/v1"; kind = "Job"; name = "backup-shop" } ∷ [];
  spec = record {
    init_containers = [];
    containers = [];
    volumes = some "volsync-portage-db-cache" ∷ [];
    security_context = none;
    node_selector = [];
    node_name = "";
    affinity = none;
    topology_spread_constraints = [];
    tolerations = [];
  };
}

overrides_mark : get "" "k8up.io/backup" (ensure_scratch_marks cache).0.annotations ≡ "false"
unfolding ensure_scratch_marks lookup
overrides_mark = refl

deletes_job :
    (protect_scratch_pvcs (λ n. fine cache) fine (ok (backup_pod ∷ [])) (cache ∷ [])).1
    ≡ ([], "backup-shop" ∷ [])
unfolding protect_scratch_pvcs lookup
deletes_job = refl

ensure_scratch_marks-IsMarked_example :
    IsMarked cache (ensure_scratch_marks cache).0 (ensure_scratch_marks cache).1
ensure_scratch_marks-IsMarked_example = ensure_scratch_marks-IsMarked cache

protect_scratch_pvcs-IsSpared_example :
    let gone =
      (protect_scratch_pvcs (λ n. fine cache) fine (ok (backup_pod ∷ [])) (cache ∷ [])).1 in
    ((seen "backup-shop" gone.0 ≡ true)
      ↔ Some (IsPod (scratch_of (cache ∷ [])) "backup-shop") (backup_pod ∷ []))
    × ((seen "backup-shop" gone.1 ≡ true)
        ↔ Some (IsOfJob (scratch_of (cache ∷ [])) "backup-shop") (backup_pod ∷ []))
protect_scratch_pvcs-IsSpared_example =
    protect_scratch_pvcs-IsSpared (λ n. fine cache) fine (backup_pod ∷ []) (cache ∷ [])
      "backup-shop"
