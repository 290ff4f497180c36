-- ===== src/Classify/Walk.antt =====
-- pkg/classify/walk.go: `Walk`, the inventory of namespaces. `Lister` stands for the API server of
-- the source cluster; a list that fails is `err` with the text of the error.
use portage.Base.{
  String, ◌<>◌, ◌==◌, Bool, true, not, ◌||◌, none, List, [], ◌∷◌, ◌++◌, if◌then◌else◌, map, str_lt,
  sort, Fallible, ok, ◌>>=◌, context,
}
use portage.Api.{unknown_stateful}
use portage.Kube.{PersistentVolumeClaim, StatefulSet, Controller}
use portage.Classify.{Workload, Inventory}
use portage.Classify.Catalog.{Engine}
use portage.Classify.Pods.{from_pod_owner, sts_pvcs, pod_pvcs, seen, is_mover_scratch_pvc}

pub record Lister : Type 0 where
  pub stateful_sets : String → Fallible (List StatefulSet)
  pub deployments : String → Fallible (List Controller)
  pub daemon_sets : String → Fallible (List Controller)
  pub pvcs : String → Fallible (List PersistentVolumeClaim)

-- What the walk has found: the workloads, and the claims `ns/pvc` that a workload holds.
pub record Found : Type 0 where
  pub workloads : List Workload
  pub claimed : List String

-- `ns + "/" + pvc`
abbrev pub claim : String → String → String
claim ns pvc = ns <> "/" <> pvc

-- Appends a workload and `markClaimed`.
unfoldable pub add_owner : String → Workload → Found → Found
add_owner ns w found = record {
  workloads = found.workloads ++ w ∷ [];
  claimed = found.claimed ++ map (claim ns) w.pvc_names;
}

-- The loop over the controllers of one kind.
unfoldable pub add_owners : String → List Workload → Found → Found
unfolding add_owner
add_owners ns [] found = found
add_owners ns (w ∷ ws) found = add_owners ns ws (add_owner ns w found)

abbrev pub orphan : String → PersistentVolumeClaim → Workload
orphan ns pvc = record {
  namespace = ns;
  name = pvc.name;
  kind = "PersistentVolumeClaim";
  api_version = "v1";
  class = unknown_stateful;
  engine = "";
  images = [];
  pvc_names = pvc.name ∷ [];
  unclassified = true;
  fs_group = none;
  run_as_user = none;
}

-- A claim that no workload holds and that is no mover's scratch.
unfoldable pub add_pvc : String → Found → PersistentVolumeClaim → Found
add_pvc ns found pvc =
    if seen (claim ns pvc.name) found.claimed || is_mover_scratch_pvc pvc
    then found
    else record found { workloads = found.workloads ++ orphan ns pvc ∷ [] }

unfoldable pub add_pvcs : String → List PersistentVolumeClaim → Found → Found
unfolding add_pvc
add_pvcs ns [] found = found
add_pvcs ns (pvc ∷ pvcs) found = add_pvcs ns pvcs (add_pvc ns found pvc)

-- The order of the inventory: by namespace, kind and name.
unfoldable pub before : Workload → Workload → Bool
before a b =
    if not (a.namespace == b.namespace)
    then str_lt a.namespace b.namespace
    else if not (a.kind == b.kind)
    then str_lt a.kind b.kind
    else str_lt a.name b.name

module _ (engines : List Engine) (lister : Lister) where
  unfoldable pub of_sts : String → StatefulSet → Workload
  of_sts ns s = from_pod_owner engines ns "StatefulSet" "apps/v1" s.name s.template (sts_pvcs s)

  unfoldable pub of_controller : String → String → Controller → Workload
  of_controller ns kind c =
      from_pod_owner engines ns kind "apps/v1" c.name c.template (pod_pvcs c.template)

  -- What the body of the loop over the namespaces does with the four lists that it asks for.
  unfoldable pub take_lists :
      String
      → Found
      → Fallible (List StatefulSet)
      → Fallible (List Controller)
      → Fallible (List Controller)
      → Fallible (List PersistentVolumeClaim)
      → Fallible Found
  unfolding of_sts of_controller add_owners add_pvcs
  take_lists ns found sts deps dss pvcs = do
    sts ← sts
    let found = add_owners ns (map (of_sts ns) sts) found
    deps ← deps
    let found = add_owners ns (map (of_controller ns "Deployment") deps) found
    dss ← dss
    let found = add_owners ns (map (of_controller ns "DaemonSet") dss) found
    pvcs ← pvcs
    ok (add_pvcs ns pvcs found)

  -- The body of the loop over the namespaces.
  unfoldable pub walk_ns : String → Found → Fallible Found
  unfolding take_lists
  walk_ns ns found =
      take_lists ns found (context ("list StatefulSets in " <> ns) (lister.stateful_sets ns))
        (context ("list Deployments in " <> ns) (lister.deployments ns))
        (context ("list DaemonSets in " <> ns) (lister.daemon_sets ns))
        (context ("list PVCs in " <> ns) (lister.pvcs ns))

  unfoldable pub walk_from : List String → Found → Fallible Found
  unfolding walk_ns
  walk_from [] found = ok found
  walk_from (ns ∷ nss) found = do found ← walk_ns ns found; walk_from nss found

  -- `Walk`
  unfoldable pub walk : List String → Fallible Inventory
  unfolding walk_from before sort
  walk nss = do
    found ← walk_from nss (record { workloads = []; claimed = [] })
    ok (record { namespaces = nss; workloads = sort before found.workloads })
