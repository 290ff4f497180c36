-- ===== src/Heal/Tests.antt =====
-- A database pod that is pinned to a node of the source cluster.
use portage.Base.{◌≡◌, ◌↔◌, refl, none, some, [], ◌∷◌, contains_fold}
use portage.Kube.{PodSpec, PersistentVolumeClaim}
use portage.Classify.Catalog.{catalog}
use portage.Transform.{Options}
use portage.Heal.{heal_pod, heal_pvc, strip_node_affinity, strip_root_fs_group, postgres_image}
use portage.Heal.Pods.{heal_pod-IsStable, heal_pod-eq-nil_iff}
use portage.Heal.Claims.{IsUnpinned, heal_pvc-IsUnpinned}

abbrev pinned : PodSpec
pinned = record {
  init_containers = [];
  containers = record { image = "postgres:16"; run_as_user = none } ∷ [];
  volumes = some "data-db-0" ∷ [];
  security_context = some (record { fs_group = some 999; run_as_user = none });
  node_selector = ("pool", "db") ∷ [];
  node_name = "";
  affinity = none;
  topology_spread_constraints = "zone" ∷ [];
  tolerations = record { key = "nvidia.com/gpu"; effect = "NoSchedule" } ∷ [];
}

heal_pod-IsStable_example :
    heal_pod catalog (heal_pod catalog pinned).0 ≡ ((heal_pod catalog pinned).0, [])
heal_pod-IsStable_example = heal_pod-IsStable catalog pinned

heal_pod-eq-nil_iff_example :
    ((heal_pod catalog pinned).1 ≡ [])
    ↔ ((heal_pod catalog pinned).0 ≡ record pinned { topology_spread_constraints = [] })
heal_pod-eq-nil_iff_example = heal_pod-eq-nil_iff catalog pinned

heal_pod_test : (heal_pod catalog pinned).1 ≡ strip_node_affinity ∷ strip_root_fs_group ∷ []
unfolding heal_pod postgres_image contains_fold
heal_pod_test = refl

abbrev bound : PersistentVolumeClaim
bound = record {
  name = "data-db-0";
  namespace = "shop";
  uid = "17";
  resource_version = "4";
  generation = 2;
  managed_fields = [];
  labels = ("topology.kubernetes.io/zone", "a") ∷ [];
  annotations = ("volume.kubernetes.io/selected-node", "n1") ∷ [];
  owner_references = [];
  volume_name = "pv-9";
  storage_class_name = some "gp3";
  selector = none;
  data_source = none;
  data_source_ref = none;
  phase = "Bound";
}

abbrev options : Options
options = record {
  storage_class_map = [];
  default_storage_class = "standard";
  runtime_class_map = [];
}

heal_pvc-IsUnpinned_example : IsUnpinned bound (heal_pvc bound options).0
heal_pvc-IsUnpinned_example = heal_pvc-IsUnpinned bound options
