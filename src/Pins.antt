-- ===== src/Pins.antt =====
-- pkg/movers/volsync/dest_pins.go: pods and mover jobs of the destination that are pinned to a node
-- that only the source cluster has.
pub mod Unpinned
mod Tests
use portage.Base.{
  String, ◌==◌, ◌<>◌, Bool, true, false, not, ◌&&◌, ◌||◌, Option, none, some, List, [], ◌∷◌, ◌++◌,
  if◌then◌else◌, any, keep, map, get, Map, has_prefix, has_suffix, str_contains, Fallible, ok, err,
  is_empty,
}
use portage.Kube.{PodSpec, Requirement, NodeSelectorTerm, Affinity, NodeAffinity}
use portage.Classify.Catalog.{Engine}
use portage.Heal.{heal_pod}

abbrev pub hostname_label : String
hostname_label = "kubernetes.io/hostname"

-- A node, its conditions as pairs of type and status.
pub record Node : Type 0 where
  pub name : String
  pub labels : Map String
  pub conditions : List (String × String)

-- A pod, or the template of a mover's job, under its name.
pub record Pod : Type 0 where
  pub name : String
  pub phase : String
  pub spec : PodSpec

-- `nodeReady`
unfoldable pub node_ready : Node → Bool
node_ready n = any (λ (type, status). type == "Ready" && status == "True") n.conditions

abbrev hostnames_of : Node → List String
hostnames_of n =
    let h = get "" hostname_label n.labels in n.name ∷ (if not (h == "") then h ∷ [] else [])

-- `destHostnames`
unfoldable pub dest_hostnames : Fallible (List Node) → List String
unfolding node_ready get
dest_hostnames (err e) = []
dest_hostnames (ok []) = []
dest_hostnames (ok (n ∷ ns)) =
    let rest = dest_hostnames (ok ns) in if node_ready n then hostnames_of n ++ rest else rest

abbrev or_later : Option String → Option String → Option String
or_later (some v) later = some v
or_later none later = later

abbrev value_of : Bool → List String → Option String
value_of true (v ∷ vs) = some v
value_of _ _ = none

-- The first value of the first requirement that has one, on a key that passes a test.
unfoldable pub first_value : (String → Bool) → List Requirement → Option String
first_value names [] = none
first_value names (r ∷ rs) = or_later (value_of (names r.key) r.values) (first_value names rs)

abbrev names_node : String → Bool
names_node key = key == "metadata.name" || key == hostname_label

-- The loop over the terms.
unfoldable pub term_pin : List NodeSelectorTerm → Option String
unfolding first_value
term_pin [] = none
term_pin (t ∷ ts) =
    or_later (first_value (λ key. key == hostname_label) t.match_expressions)
      (or_later (first_value names_node t.match_fields) (term_pin ts))

abbrev or_empty : Option String → String
or_empty none = ""
or_empty (some v) = v

abbrev required_pin : Option (List NodeSelectorTerm) → String
required_pin none = ""
required_pin (some terms) = or_empty (term_pin terms)

abbrev node_pin : Option NodeAffinity → String
node_pin none = ""
node_pin (some a) = required_pin a.required

abbrev affinity_pin : Option Affinity → String
affinity_pin none = ""
affinity_pin (some a) = node_pin a.node_affinity

-- `hostnamePin`
unfoldable pub hostname_pin : PodSpec → String
unfolding term_pin get
hostname_pin spec =
    let h = get "" hostname_label spec.node_selector in
    if not (h == "")
    then h
    else if not (spec.node_name == "")
    then spec.node_name
    else affinity_pin spec.affinity

-- `isVolSyncMoverJob`
unfoldable pub is_volsync_mover_job : String → Bool
is_volsync_mover_job name = has_prefix name "volsync-src-" || has_prefix name "volsync-dst-"

-- Is a pod pinned to a host that is none of the destination's?
unfoldable pub is_stray : List String → Pod → Bool
unfolding hostname_pin
is_stray dest_nodes p =
    let host = hostname_pin p.spec in not (host == "") && not (any (λ n. n == host) dest_nodes)

abbrev pub when_listed : Fallible (List Pod) → List Pod
when_listed (ok pods) = pods
when_listed (err e) = []

-- `deletePinnedDestPods`: the names that it deletes.
unfoldable pub delete_pinned_dest_pods : List String → Fallible (List Pod) → List String
unfolding is_stray is_volsync_mover_job
delete_pinned_dest_pods dest_nodes pods =
    map (λ p. p.name)
      (keep (λ p. not (is_volsync_mover_job p.name) && is_stray dest_nodes p) (when_listed pods))

-- `deletePinnedMoverJobs`: the names that it deletes.
unfoldable pub delete_pinned_mover_jobs : List String → Fallible (List Pod) → List String
unfolding is_stray is_volsync_mover_job
delete_pinned_mover_jobs dest_nodes jobs =
    map (λ p. p.name)
      (keep (λ p. is_volsync_mover_job p.name && is_stray dest_nodes p) (when_listed jobs))

-- `stripDestWorkloads`, on the templates of one kind: the names that it updates.
unfoldable pub strip_dest_workloads : List Engine → Fallible (List Pod) → List String
unfolding heal_pod
strip_dest_workloads engines templates =
    map (λ p. p.name)
      (keep (λ p. not (is_empty (heal_pod engines p.spec).1)) (when_listed templates))

-- `deleteWorkloadMoverJobs`: the names that it deletes.
unfoldable pub delete_workload_mover_jobs : String → String → Fallible (List Pod) → List String
unfolding is_volsync_mover_job str_contains has_suffix
delete_workload_mover_jobs ns rs_name jobs =
    if ns == "" || rs_name == ""
    then []
    else map (λ j. j.name)
        (keep
          (λ j.
            is_volsync_mover_job j.name
            && (str_contains j.name (rs_name <> "-") || has_suffix j.name rs_name))
          (when_listed jobs))

-- `destUserMounted`
unfoldable pub dest_user_mounted : String → String → Fallible (List Pod) → Bool
unfolding is_volsync_mover_job
dest_user_mounted ns pvc pods =
    if ns == "" || pvc == ""
    then false
    else any
        (λ p.
          not (is_volsync_mover_job p.name)
          && p.phase == "Running"
          && any (λ v. mounts v) p.spec.volumes)
        (when_listed pods)
  where
    mounts : Option String → Bool
    mounts none = false
    mounts (some claim) = claim == pvc

abbrev first_message : (Pod → Bool) → (Pod → String) → List Pod → String → String
first_message test tell [] later = later
first_message test tell (p ∷ ps) later =
    let rest = first_message test tell ps later in if test p then tell p else rest

-- The loops of `destMoverPinMessage`, over the jobs and then over the pods.
unfoldable pub pin_message : List String → List Pod → Fallible (List Pod) → String
unfolding is_stray is_volsync_mover_job
pin_message nodes jobs pods =
    first_message (λ j. is_volsync_mover_job j.name && is_stray nodes j)
      (λ j. "dest mover job " <> j.name <> " pinned to source-only node " <> hostname_pin j.spec)
      jobs
      (first_message (λ p. not (is_volsync_mover_job p.name) && is_stray nodes p)
        (λ p. "dest pod " <> p.name <> " pinned to source-only node " <> hostname_pin p.spec)
        (when_listed pods) "")

abbrev when_asked : Fallible (List Pod) → (List Pod → String) → String
when_asked (err e) tell = ""
when_asked (ok jobs) tell = tell jobs

-- `destMoverPinMessage`, for a remote destination with a client.
unfoldable pub dest_mover_pin_message :
    Fallible (List Node) → Fallible (List Pod) → Fallible (List Pod) → String
unfolding dest_hostnames pin_message
dest_mover_pin_message nodes jobs pods =
    when_asked jobs (λ jobs. pin_message (dest_hostnames nodes) jobs pods)
