-- ===== src/Graph/Discover.antt =====
-- `discover` of pkg/clusterobjects/graph.go: the resources of the source cluster that are copied.
pub mod Exact
use portage.Base.{
  String, ◌==◌, ◌<>◌, Bool, true, false, not, ◌&&◌, ◌||◌, Option, none, some, List, [], ◌∷◌, ◌++◌,
  if◌then◌else◌, any, join, str_contains,
}
use portage.Graph.{Ref, excluded_gvr}

abbrev pub skip_resource : List String
skip_resource =
    "pods" ∷ "replicasets" ∷ "replicationcontrollers" ∷ "endpoints" ∷ "endpointslices" ∷ "events"
    ∷ "bindings" ∷ "componentstatuses" ∷ "limitranges" ∷ "tokenreviews" ∷ "subjectaccessreviews"
    ∷ "selfsubjectaccessreviews" ∷ "selfsubjectrulesreviews" ∷ "localsubjectaccessreviews"
    ∷ "leases" ∷ "nodes" ∷ "persistentvolumes" ∷ "persistentvolumeclaims" ∷ "volumeattachments"
    ∷ "csidrivers" ∷ "csinodes" ∷ "csistoragecapacities" ∷ "certificatesigningrequests"
    ∷ "apiservices" ∷ "flowschemas" ∷ "prioritylevelconfigurations" ∷ "runtimeclasses"
    ∷ "controllerrevisions" ∷ "evictions" ∷ "podtemplates" ∷ "statefulsets" ∷ "deployments"
    ∷ "daemonsets" ∷ "storageclasses" ∷ "volumeattributesclasses" ∷ "jobs" ∷ "volumesnapshots"
    ∷ "volumesnapshotcontents" ∷ "volumesnapshotclasses" ∷ "servicecidrs" ∷ "ipaddresses"
    ∷ "capsuleconfigurations" ∷ "replicationsources" ∷ "replicationdestinations" ∷ []

abbrev pub skip_group : List String
skip_group =
    "events.k8s.io" ∷ "metrics.k8s.io" ∷ "discovery.k8s.io" ∷ "coordination.k8s.io" ∷ "node.k8s.io"
    ∷ "authentication.k8s.io" ∷ "authorization.k8s.io" ∷ "portage.io" ∷ "apiregistration.k8s.io"
    ∷ "flowcontrol.apiserver.k8s.io" ∷ "admissionregistration.k8s.io" ∷ "volsync.backube"
    ∷ "k8up.io" ∷ "k8up.synextreme.com" ∷ "backup.appuio.io" ∷ "velero.io" ∷ "stash.appscode.com"
    ∷ []

-- `metav1.APIResource` and `metav1.APIResourceList`
pub record ApiResource : Type 0 where
  pub name : String
  pub namespaced : Bool
  pub kind : String
  pub verbs : List String

pub record ApiResourceList : Type 0 where
  pub group_version : String
  pub resources : List ApiResource

-- `ClusterObjectsSpec`; a nil pointer is `none`.
pub record ClusterObjectsSpec : Type 0 where
  pub include_cluster_scoped : Option Bool
  pub exclude_namespaces : List String
  pub exclude_gvks : List String

-- `includeClusterScoped`
unfoldable pub include_cluster_scoped : ClusterObjectsSpec → Bool
include_cluster_scoped spec = elim spec.include_cluster_scoped [ none ↦ true | some b ↦ b ]

abbrev pub listed : List String → String → Bool
listed names n = any (λ m. m == n) names

-- The key of `seen`.
abbrev pub resource_key : String → String → String
resource_key group resource = group <> "/" <> resource

-- What was found: the keys that were seen, and the references.
pub record Discovered : Type 0 where
  pub seen : List String
  pub refs : List Ref

abbrev pub ref_of : String → String → ApiResource → Ref
ref_of group version r = record {
  group = group;
  version = version;
  resource = r.name;
  namespaced = r.namespaced;
}

-- The body of the loop over the resources of a list.
unfoldable pub add_resource :
    ClusterObjectsSpec → String → String → Discovered → ApiResource → Discovered
unfolding include_cluster_scoped excluded_gvr join str_contains
add_resource spec group version found r =
    let key = resource_key group r.name in
    let verbs = join "," r.verbs in
    let ref = ref_of group version r in
    if str_contains r.name "/"
    then found
    else if listed skip_resource r.name
    then found
    else if listed found.seen key
    then found
    else if not r.namespaced
        && not (r.name == "customresourcedefinitions")
        && not (include_cluster_scoped spec)
    then found
    else if not (str_contains verbs "list") || not (str_contains verbs "create")
    then found
    else if excluded_gvr ref r.kind spec.exclude_gvks
    then found
    else record { seen = key ∷ found.seen; refs = found.refs ++ ref ∷ [] }

unfoldable pub add_resources :
    ClusterObjectsSpec → String → String → Discovered → List ApiResource → Discovered
unfolding add_resource
add_resources spec group version found [] = found
add_resources spec group version found (r ∷ rs) =
    add_resources spec group version (add_resource spec group version found r) rs

unfoldable pub add_parsed :
    ClusterObjectsSpec → Discovered → List ApiResource → Option (String × String) → Discovered
unfolding add_resources
add_parsed spec found rs none = found
add_parsed spec found rs (some (group, version)) =
    if listed skip_group group then found else add_resources spec group version found rs

-- `parse_group_version` stands for `schema.ParseGroupVersion`, `none` for its error.
module _ (parse_group_version : String → Option (String × String)) where
  -- The body of the loop over the lists.
  unfoldable pub add_list : ClusterObjectsSpec → Discovered → ApiResourceList → Discovered
  unfolding add_parsed
  add_list spec found l = add_parsed spec found l.resources (parse_group_version l.group_version)

  unfoldable pub add_lists : ClusterObjectsSpec → Discovered → List ApiResourceList → Discovered
  unfolding add_list
  add_lists spec found [] = found
  add_lists spec found (l ∷ ls) = add_lists spec (add_list spec found l) ls

  -- `discover`, on the lists that the server gave.
  unfoldable pub discover : ClusterObjectsSpec → List ApiResourceList → List Ref
  unfolding add_lists
  discover spec lists = (add_lists spec (record { seen = []; refs = [] }) lists).refs
