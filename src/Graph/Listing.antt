-- ===== src/Graph/Listing.antt =====
-- `List` of pkg/clusterobjects/graph.go: the objects of the source cluster that are copied.
pub mod Portable
pub mod Kept
mod Tests
use portage.Base.{
  ℕ, String, ◌==◌, ◌<>◌, Bool, true, false, not, ◌&&◌, ◌||◌, Option, none, some, List, [], ◌∷◌,
  ◌++◌, if◌then◌else◌, any, keep, map, ltb, cut, has_prefix, has_suffix, equal_fold, str_contains,
  Fallible, ok, err, ◌>>=◌,
}
use portage.Graph.{Ref, ExcludePat, parse_exclude, match_gvr, kind_matches_resource}
use portage.Graph.Discover.{ClusterObjectsSpec, listed}

-- An object, by what the listing reads: `NestedString` reads a field that is missing as "".
pub record Object : Type 0 where
  pub name : String
  pub namespace : String
  pub kind : String
  pub secret_type : String
  pub crd_group : String
  pub crd_kind : String
  pub crd_plural : String
  pub is_deleting : Bool

-- An object with the resource that it was listed from.
pub record Listed : Type 0 where
  pub ref : Ref
  pub object : Object
  pub deleting : Bool

-- `matchCRD`: the name of a CRD is `<plural>.<group>`.
unfoldable pub match_crd_object : ExcludePat → Object → Bool
unfolding equal_fold kind_matches_resource cut str_contains
match_crd_object p o =
    let (plural, group) = cut b'.' o.name in
    if not (p.crd_name == "") && equal_fold o.name p.crd_name
    then true
    else if not (p.resource == "")
        && not (p.group == "")
        && equal_fold o.name (p.resource <> "." <> p.group)
    then true
    else if not (p.kind == "")
        && not (p.group == "")
        && ((equal_fold o.crd_group p.group && equal_fold o.crd_kind p.kind)
            || (equal_fold o.crd_group p.group && kind_matches_resource p.kind o.crd_plural)
            || (str_contains o.name "."
                && not (plural == "")
                && equal_fold group p.group
                && kind_matches_resource p.kind plural))
    then true
    else if not (p.resource == "") && p.group == "" && equal_fold o.crd_plural p.resource
    then true
    else not (p.crd_name == "")
      && not (o.crd_group == "")
      && not (o.crd_plural == "")
      && equal_fold (o.crd_plural <> "." <> o.crd_group) p.crd_name

abbrev excludes : Ref → Object → ExcludePat → Bool
excludes ref o p =
    match_gvr p ref o.kind || (ref.resource == "customresourcedefinitions" && match_crd_object p o)

-- `excludedObj`
unfoldable pub excluded_obj : Ref → Object → List String → Bool
unfolding parse_exclude match_gvr match_crd_object
excluded_obj ref o = any (λ raw. excludes ref o (parse_exclude raw))

abbrev skip_cluster_role : List String
skip_cluster_role = "cluster-admin" ∷ "admin" ∷ "edit" ∷ "view" ∷ []

-- `skipObj`
unfoldable pub skip_obj : Ref → Object → List String → Bool
unfolding excluded_obj has_prefix has_suffix
skip_obj ref o exclude =
    if excluded_obj ref o exclude
    then true
    else if o.name == "kube-root-ca.crt"
    then true
    else if ref.resource == "secrets" && o.secret_type == "kubernetes.io/service-account-token"
    then true
    else if ref.resource == "services" && o.name == "kubernetes" && o.namespace == "default"
    then true
    else if ref.resource == "customresourcedefinitions" && has_suffix o.name ".portage.io"
    then true
    else (ref.resource == "clusterroles" || ref.resource == "clusterrolebindings")
      && (has_prefix o.name "system:"
          || has_prefix o.name "kubeadm:"
          || listed skip_cluster_role o.name)

abbrev pub skip_ns : List String
skip_ns = "kube-system" ∷ "kube-public" ∷ "kube-node-lease" ∷ []

-- An error of a list call, by the tests of the `errors` package.
pub data ListError : Type 0 where
  forbidden not_found method_not_supported : ListError
  failure : String → ListError

pub data Reply : Type 0 where
  objects : List Object → Reply
  refused : ListError → Reply

-- `skipListErr`
abbrev pub skip_list_error : ListError → Bool
skip_list_error (failure e) = false
skip_list_error _ = true

-- `forbiddenCapsuleTenant`
abbrev pub forbidden_capsule_tenant : Ref → ListError → Bool
forbidden_capsule_tenant ref forbidden =
    ref.group == "capsule.clastix.io" && ref.resource == "tenants"
forbidden_capsule_tenant ref _ = false

-- What the listing asks for, and the text of an error: `all` lists a resource over the cluster,
-- `within` in a namespace.
pub record Source : Type 0 where
  pub all : Ref → Reply
  pub within : Ref → String → Reply
  pub error_text : Ref → ListError → String

module _ (source : Source) (spec : ClusterObjectsSpec) (namespaces : List String) where
  -- `skip`: the built-in namespaces, and those of the spec.
  abbrev pub skipped_ns : String → Bool
  skipped_ns ns = listed skip_ns ns || listed spec.exclude_namespaces ns

  -- The tests of the loop over the objects without a namespace.
  unfoldable pub takes : Ref → Object → Bool
  unfolding skip_obj
  takes ref o =
      if ref.resource == "namespaces" && (skipped_ns o.name || not (listed namespaces o.name))
      then false
      else not (skip_obj ref o spec.exclude_gvks)

  abbrev pub item_of : Ref → Object → Listed
  item_of ref o = record { ref = ref; object = o; deleting = o.is_deleting }

  unfoldable pub of_all : Ref → Reply → Fallible (List Listed)
  unfolding takes
  of_all ref (objects os) = ok (map (item_of ref) (keep (takes ref) os))
  of_all ref (refused e) =
      if skip_list_error e && not (forbidden_capsule_tenant ref e)
      then ok []
      else err (source.error_text ref e)

  unfoldable pub of_within : Ref → Reply → Fallible (List Listed)
  unfolding skip_obj
  of_within ref (objects os) =
      ok (map (item_of ref) (keep (λ o. not (skip_obj ref o spec.exclude_gvks)) os))
  of_within ref (refused e) = if skip_list_error e then ok [] else err (source.error_text ref e)

  -- The loop over the namespaces.
  unfoldable pub list_within : Ref → List String → Fallible (List Listed)
  unfolding of_within
  list_within ref [] = ok []
  list_within ref (ns ∷ nss) =
      let rest = list_within ref nss in
      if skipped_ns ns
      then rest
      else do here ← of_within ref (source.within ref ns); rest ← rest; ok (here ++ rest)

  unfoldable pub list_ref : Ref → Fallible (List Listed)
  unfolding of_all list_within
  list_ref ref = if ref.namespaced then list_within ref namespaces else of_all ref (source.all ref)

  -- `List`
  unfoldable pub list_refs : List Ref → Fallible (List Listed)
  unfolding list_ref
  list_refs [] = ok []
  list_refs (ref ∷ refs) = do here ← list_ref ref; rest ← list_refs refs; ok (here ++ rest)
