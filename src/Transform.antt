-- ===== src/Transform.antt =====
-- pkg/transform/sanitize.go: what is stripped from an object so that another cluster can take it.
-- This module has the typed claim; the generic objects are in Json and its users.
pub mod Json
pub mod Runtime
pub mod Others
pub mod Tolerations
pub mod Local
pub mod Claim
mod Tests
use portage.Base.{
  String, ◌==◌, ℕ, Bool, true, false, not, ◌||◌, Option, none, some, List, [], ◌∷◌, if◌then◌else◌,
  any, keep, Map, lookup, get, has_prefix, has_suffix, str_contains, is_some,
}
use portage.Kube.{PersistentVolumeClaim}

-- A nil map and an empty one are read alike.
pub record Options : Type 0 where
  pub storage_class_map : Map String
  pub default_storage_class : String
  pub runtime_class_map : Map String

abbrev pub drop_annotation_exact : List String
drop_annotation_exact =
    "volume.kubernetes.io/selected-node" ∷ "pv.kubernetes.io/bind-completed"
    ∷ "pv.kubernetes.io/bound-by-controller" ∷ "volume.beta.kubernetes.io/storage-provisioner"
    ∷ "volume.kubernetes.io/storage-provisioner" ∷ "velero.io/backup-name"
    ∷ "velero.io/restore-name" ∷ []

abbrev pub drop_annotation_prefixes : List String
drop_annotation_prefixes =
    "service.beta.kubernetes.io/aws-load-balancer-" ∷ "service.beta.kubernetes.io/azure-"
    ∷ "cloud.google.com/" ∷ "kubernetes.digitalocean.com/" ∷ "ovhcloud.com/"
    ∷ "metallb.universe.tf/" ∷ []

abbrev pub drop_label_keys : List String
drop_label_keys =
    "topology.kubernetes.io/zone" ∷ "topology.kubernetes.io/region"
    ∷ "failure-domain.beta.kubernetes.io/zone" ∷ "failure-domain.beta.kubernetes.io/region"
    ∷ "topology.ebs.csi.aws.com/zone" ∷ "topology.gke.io/zone" ∷ []

-- `contains`
unfoldable pub contains : List String → String → Bool
contains list k = any (λ x. x == k) list

-- `hasPrefix`
unfoldable pub has_prefix_of : String → List String → Bool
has_prefix_of k = any (has_prefix k)

-- Does an annotation name the source cluster?
unfoldable pub drops_annotation : String → Bool
unfolding contains has_prefix_of
drops_annotation k = contains drop_annotation_exact k || has_prefix_of k drop_annotation_prefixes

-- `filterAnns`: nil and empty maps are one here.
unfoldable pub filter_anns : Map String → Map String
filter_anns m = keep (λ (k, v). not (drops_annotation k)) m

-- `filterLabels`
unfoldable pub filter_labels : Map String → Map String
filter_labels m = keep (λ (k, v). not (contains drop_label_keys k)) m

abbrev or_default : String → String → Option String → String
or_default default src (some dst) = dst
or_default default src none = if not (default == "") then default else src

-- `mapSC`
unfoldable pub map_sc : String → Options → String
unfolding lookup
map_sc src opt = or_default opt.default_storage_class src (lookup src opt.storage_class_map)

abbrev pub map_class : Option String → Options → Option String
map_class (some sc) opt = some (map_sc sc opt)
map_class none opt =
    if not (opt.default_storage_class == "") then some opt.default_storage_class else none

abbrev pub map_selector : Option (Map String) → Option (Map String)
map_selector none = none
map_selector (some labels) = some (filter_labels labels)

-- `PVC`: the phase is the part of the status that is read later.
unfoldable pub pvc : PersistentVolumeClaim → Options → PersistentVolumeClaim
unfolding filter_anns filter_labels map_sc
pvc claim opt = record claim {
  phase = "";
  uid = "";
  resource_version = "";
  generation = 0;
  managed_fields = [];
  owner_references = [];
  annotations = filter_anns claim.annotations;
  labels = filter_labels claim.labels;
  volume_name = "";
  storage_class_name = map_class claim.storage_class_name opt;
  selector = map_selector claim.selector;
  data_source = none;
  data_source_ref = none;
}

-- `clusterLocalTolerationKey`
unfoldable pub cluster_local_toleration_key : String → Bool
cluster_local_toleration_key key =
    key == "sandbox.gke.io/runtime"
    || key == "nvidia.com/gpu"
    || key == "kubernetes.io/hostname"
    || str_contains key "runtimeclass"
    || has_suffix key "/runtime"
