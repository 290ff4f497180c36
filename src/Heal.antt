-- ===== src/Heal.antt =====
-- pkg/heal/heal.go: the named fixes that let a restored workload be scheduled.
pub mod Pods
pub mod Claims
mod Tests
use portage.Base.{
  String, ◌==◌, ℕ, suc, zero, Bool, true, false, not, ◌||◌, ◌&&◌, Option, none, some, List, [], ◌∷◌,
  ◌++◌, if◌then◌else◌, any, keep, length, is_empty, is_some, lookup, delete, nat_beq, ltb,
}
use portage.Kube.{
  Container, SecurityContext, Affinity, NodeAffinity, Toleration, PodSpec, PersistentVolumeClaim,
}
use portage.Classify.Catalog.{Engine, match_image}
use portage.Classify.Pods.{seen}
use portage.Transform.{Options, pvc}

abbrev pub strip_selected_node : String
strip_selected_node = "strip-selected-node"

abbrev pub remap_storage_class : String
remap_storage_class = "remap-storageclass"

abbrev pub strip_node_affinity : String
strip_node_affinity = "strip-node-affinity"

abbrev pub strip_zone_labels : String
strip_zone_labels = "strip-zone-labels"

abbrev pub strip_root_fs_group : String
strip_root_fs_group = "strip-root-fsgroup"

-- The loop of `unique`: a name that was not seen is put out.
unfoldable pub unique_from : List String → List String → List String
unique_from names [] = []
unique_from names (s ∷ ss) =
    let rest = unique_from names ss in
    let next = unique_from (s ∷ names) ss in if seen s names then rest else s ∷ next

-- `unique`
unfoldable pub unique : List String → List String
unfolding unique_from
unique ss = unique_from [] ss

-- `if cond { out = append(out, name) }`
abbrev pub when : Bool → String → List String
when cond name = if cond then name ∷ [] else []

abbrev pub selected_node : String
selected_node = "volume.kubernetes.io/selected-node"

abbrev pub zone : String
zone = "topology.kubernetes.io/zone"

-- Was a class that was named replaced?
abbrev pub remapped : Option String → Option String → Bool
remapped (some old) (some new) = not (new == old) && not (old == "")
remapped _ _ = false

-- `PVC`: the claim, and the names of the fixes.
unfoldable pub heal_pvc : PersistentVolumeClaim → Options → PersistentVolumeClaim × List String
unfolding lookup delete pvc unique
heal_pvc claim opt =
    let out =
      when (is_some (lookup selected_node claim.annotations)) strip_selected_node
      ++ when (is_some (lookup zone claim.labels)) strip_zone_labels in
    if claim.phase == "Bound"
    then (
      record claim {
        annotations = delete selected_node claim.annotations;
        labels = delete zone claim.labels;
      },
      unique out,
    )
    else let healed = record (pvc claim opt) { phase = claim.phase } in
      (
        healed,
        unique (
            out
            ++ when (remapped claim.storage_class_name healed.storage_class_name)
                remap_storage_class),
      )

-- `clusterLocalTol`
unfoldable pub cluster_local_tol : String → Bool
cluster_local_tol key =
    key == "sandbox.gke.io/runtime" || key == "nvidia.com/gpu" || key == "kubernetes.io/hostname"

abbrev pub is_local : Toleration → Bool
is_local t = cluster_local_tol t.key

abbrev is_postgres : Option Engine → Bool
is_postgres none = false
is_postgres (some e) = e.name == "postgres"

-- `postgresImage`
unfoldable pub postgres_image : List Engine → String → Bool
unfolding match_image
postgres_image engines image = is_postgres (match_image engines image)

-- `postgresPod`
unfoldable pub postgres_pod : List Engine → PodSpec → Bool
unfolding postgres_image
postgres_pod engines spec =
    any (λ c. postgres_image engines c.image) spec.init_containers
    || any (λ c. postgres_image engines c.image) spec.containers

abbrev pub widens : Bool → Option ℕ → Bool
widens postgres none = false
widens postgres (some g) = nat_beq g 0 || postgres

abbrev pub strip_group : Bool → Option SecurityContext → Option SecurityContext
strip_group postgres none = none
strip_group postgres (some sc) =
    some (if widens postgres sc.fs_group then record sc { fs_group = none } else sc)

abbrev pub group_widens : Bool → Option SecurityContext → Bool
group_widens postgres none = false
group_widens postgres (some sc) = widens postgres sc.fs_group

abbrev pub pins_nodes : Option Affinity → Bool
pins_nodes none = false
pins_nodes (some a) = is_some a.node_affinity

abbrev pub drop_node_affinity : Option Affinity → Option Affinity
drop_node_affinity none = none
drop_node_affinity (some a) = some (record a { node_affinity = none })

-- `PodSpec`: the spec, and the names of the fixes. `stripVolumeFSGroup` and `filterPodTolerations`
-- are its last two steps.
unfoldable pub heal_pod : List Engine → PodSpec → PodSpec × List String
unfolding cluster_local_tol postgres_pod unique
heal_pod engines spec =
    let postgres = postgres_pod engines spec in
    (
      record spec {
        node_selector = [];
        node_name = "";
        affinity = drop_node_affinity spec.affinity;
        topology_spread_constraints = [];
        tolerations = keep (λ t. not (is_local t)) spec.tolerations;
        security_context = strip_group postgres spec.security_context;
      },
      unique (
          when (not (is_empty spec.node_selector)) strip_node_affinity
          ++ when (not (spec.node_name == "")) strip_node_affinity
          ++ when (pins_nodes spec.affinity) strip_node_affinity
          ++ when (any is_local spec.tolerations) strip_node_affinity
          ++ when (group_widens postgres spec.security_context) strip_root_fs_group),
    )
