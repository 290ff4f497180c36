-- ===== src/Classify/Tests.antt =====
-- A namespace with a database, a claim that nothing mounts and a mover's scratch claim.
use portage.Base.{
  ◌≡◌, ◌↔◌, refl, String, true, none, some, [], ◌∷◌, All, Fallible, ok, err, contains_fold, map,
  str_contains, has_prefix, has_suffix, nat_text, get, lookup,
}
use portage.Api.{sql_logical}
use portage.Kube.{PodSpec, PersistentVolumeClaim}
use portage.Classify.{Inventory}
use portage.Classify.Catalog.{Engine, image_matches, catalog, match_image}
use portage.Classify.Match.{IsFirst, match_image-percona_mongodb, match_image-eq-some_iff}
use portage.Classify.Pods.{is_mover_scratch_pvc, from_pod_owner, sts_pvcs, pod_pvcs}
use portage.Classify.Walk.{Lister, walk}
use portage.Classify.Coverage.{IsListed}
use portage.Classify.Complete.{walk-IsComplete}

abbrev percona : String
percona = "docker.io/percona/percona-server-mongodb:7.0"

percona_holds : contains_fold percona "percona/percona-server-mongodb" ≡ true
unfolding contains_fold
percona_holds = refl

match_image-percona_mongodb_example :
    (e : Engine) × (match_image catalog percona ≡ some e) × (e.class ≡ sql_logical)
match_image-percona_mongodb_example = match_image-percona_mongodb percona percona_holds

abbrev tsdb : Engine
tsdb = record {
  name = "tsdb";
  class = sql_logical;
  image_matchers = "tsdb" ∷ "" ∷ [];
  crd_matchers = [];
  logical_dump = true;
}

match_image-eq-some_iff_example :
    (match_image (tsdb ∷ catalog) "acme/tsdb:2" ≡ some tsdb)
    ↔ IsFirst (image_matches "acme/tsdb:2") (tsdb ∷ catalog) tsdb
match_image-eq-some_iff_example = match_image-eq-some_iff (tsdb ∷ catalog) "acme/tsdb:2" tsdb

abbrev pod : PodSpec
pod = record {
  init_containers = [];
  containers = record { image = "postgres:16"; run_as_user = none } ∷ [];
  volumes = some "data" ∷ [];
  security_context = none;
  node_selector = [];
  node_name = "";
  affinity = none;
  topology_spread_constraints = [];
  tolerations = [];
}

abbrev pvc : String → PersistentVolumeClaim
pvc name = record {
  name = name;
  namespace = "shop";
  uid = "";
  resource_version = "";
  generation = 0;
  managed_fields = [];
  labels = [];
  annotations = [];
  owner_references = [];
  volume_name = "";
  storage_class_name = none;
  selector = none;
  data_source = none;
  data_source_ref = none;
  phase = "Bound";
}

abbrev shop : Lister
shop = record {
  stateful_sets = λ ns. ok (
      record {
        name = "db";
        template = pod;
        replicas = some 1;
        volume_claim_templates = "data" ∷ [];
      }
      ∷ []);
  deployments = λ ns. ok [];
  daemon_sets = λ ns. ok [];
  pvcs = λ ns. ok (pvc "data-db-0" ∷ pvc "old" ∷ pvc "volsync-db-cache" ∷ []);
}

abbrev or_none : Fallible Inventory → Inventory
or_none (ok inv) = inv
or_none (err e) = record { namespaces = []; workloads = [] }

abbrev walked : Inventory
walked = or_none (walk catalog shop ("shop" ∷ []))

walk-IsComplete_example : All (IsListed catalog shop walked.workloads) ("shop" ∷ [])
unfolding walk
walk-IsComplete_example = walk-IsComplete catalog shop ("shop" ∷ []) walked refl

walk_test : map (λ w. w.name) walked.workloads ≡ "old" ∷ "db" ∷ []
unfolding walk contains_fold image_matches is_mover_scratch_pvc str_contains has_prefix has_suffix
    nat_text from_pod_owner match_image sts_pvcs pod_pvcs get lookup
walk_test = refl
