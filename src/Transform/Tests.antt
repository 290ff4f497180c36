-- ===== src/Transform/Tests.antt =====
-- A pod of gVisor, and a claim of a cloud's zone.
use portage.Base.{
  false, str_contains, has_suffix, String, ◌≡◌, ◌≢◌, ◌↔◌, refl, none, some, [], ◌∷◌, lookup,
  has_prefix,
}
use portage.Kube.{PersistentVolumeClaim}
use portage.Transform.{
  cluster_local_toleration_key, Options, pvc, contains, drops_annotation, filter_labels,
  filter_anns, map_sc,
}
use portage.Transform.Json.{Json, str, obj, arr, nil, cons, Fields, end, field, HoldsText}
use portage.Transform.Runtime.{walk_fields, IsMapped}
use portage.Transform.Others.{walk_fields-IsRemapped}
use portage.Transform.Tolerations.{strip_fields, HoldsToleration}
use portage.Transform.Local.{strip_fields-IsForeign}
use portage.Transform.Claim.{IsPortable, pvc-IsPortable}

abbrev moved : Options
moved = record {
  storage_class_map = ("gp3", "do-block") ∷ [];
  default_storage_class = "standard";
  runtime_class_map = ("gvisor", "kata") ∷ [];
}

abbrev deployment : Fields
deployment = field "kind" (str "Deployment") (
    field "spec"
      (obj (
        field "runtimeClassName" (str "gvisor")
          (field "template" (obj (field "runtimeClassName" (str "runsc") end)) end)))
      end)

walk_fields-IsRemapped_example :
    (◌≢◌ {A = String} "kind" "runtimeClassName"
      → HoldsText "kind" "Deployment" (walk_fields moved deployment)
        ↔ HoldsText "kind" "Deployment" deployment)
    × (HoldsText "runtimeClassName" "Deployment" (walk_fields moved deployment)
        → IsMapped moved "Deployment")
walk_fields-IsRemapped_example = walk_fields-IsRemapped moved "kind" "Deployment" deployment

-- A class of the map is put in place, another one is taken out.
walk_test :
    walk_fields moved deployment
    ≡ field "kind" (str "Deployment") (
        field "spec"
          (obj (field "runtimeClassName" (str "kata") (field "template" (obj end) end)))
          end)
unfolding walk_fields lookup
walk_test = refl

abbrev disk : PersistentVolumeClaim
disk = record {
  name = "data-db-0";
  namespace = "shop";
  uid = "17";
  resource_version = "4";
  generation = 2;
  managed_fields = "kubectl" ∷ [];
  labels = ("topology.kubernetes.io/zone", "a") ∷ ("app", "db") ∷ [];
  annotations = ("cloud.google.com/neg", "x") ∷ ("team", "shop") ∷ [];
  owner_references = [];
  volume_name = "pv-9";
  storage_class_name = some "gp3";
  selector = none;
  data_source = none;
  data_source_ref = none;
  phase = "Bound";
}

pvc-IsPortable_example : IsPortable disk moved (pvc disk moved)
pvc-IsPortable_example = pvc-IsPortable disk moved

pvc_test :
    ((pvc disk moved).labels ≡ ("app", "db") ∷ [])
    × ((pvc disk moved).annotations ≡ ("team", "shop") ∷ [])
    × ((pvc disk moved).storage_class_name ≡ some "do-block")
unfolding pvc filter_labels filter_anns map_sc lookup contains drops_annotation has_prefix
pvc_test = (refl, refl, refl)

abbrev toleration : String → Json
toleration key = obj (field "key" (str key) (field "effect" (str "NoSchedule") end))

abbrev pod : Fields
pod =
    field "spec"
      (obj (
        field "tolerations"
          (arr (cons (toleration "sandbox.gke.io/runtime") (cons (toleration "team") nil))) end))
      end

strip_fields-IsForeign_example :
    HoldsToleration "team" (strip_fields pod)
    ↔ (HoldsToleration "team" pod × (cluster_local_toleration_key "team" ≡ false))
strip_fields-IsForeign_example = strip_fields-IsForeign "team" pod

strip_test :
    strip_fields pod
    ≡ field "spec" (obj (field "tolerations" (arr (cons (toleration "team") nil)) end)) end
unfolding strip_fields str_contains has_suffix
strip_test = refl
