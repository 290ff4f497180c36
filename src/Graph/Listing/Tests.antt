-- ===== src/Graph/Listing/Tests.antt =====
-- Secrets of two namespaces, and cluster roles.
use portage.Base.{
  String, ◌≡◌, refl, true, false, none, List, [], ◌∷◌, All, Some, map, ok, Fallible, err,
  has_prefix, has_suffix,
}
use portage.Graph.{Ref}
use portage.Graph.Discover.{ClusterObjectsSpec}
use portage.Graph.Listing.{Object, Listed, objects, Source, list_refs, skip_obj}
use portage.Graph.Listing.Kept.{IsCopied, IsListed, list_refs-IsCopied}

abbrev secrets : Ref
secrets = record { group = ""; version = "v1"; resource = "secrets"; namespaced = true }

abbrev roles : Ref
roles = record {
  group = "rbac.authorization.k8s.io";
  version = "v1";
  resource = "clusterroles";
  namespaced = false;
}

abbrev object : String → String → Object
object name secret_type = record {
  name = name;
  namespace = "shop";
  kind = "";
  secret_type = secret_type;
  crd_group = "";
  crd_kind = "";
  crd_plural = "";
  is_deleting = false;
}

abbrev cluster : Source
cluster = record {
  all = λ ref. objects (object "system:node" "" ∷ object "shop-admin" "" ∷ []);
  within = λ ref ns.
      objects (object "db" "Opaque" ∷ object "token" "kubernetes.io/service-account-token" ∷ []);
  error_text = λ ref e. "list failed";
}

abbrev spec : ClusterObjectsSpec
spec = record { include_cluster_scoped = none; exclude_namespaces = []; exclude_gvks = [] }

abbrev namespaces : List String
namespaces = "shop" ∷ "kube-system" ∷ []

abbrev or_empty : Fallible (List Listed) → List Listed
or_empty (ok items) = items
or_empty (err e) = []

abbrev items : List Listed
items = or_empty (list_refs cluster spec namespaces (secrets ∷ roles ∷ []))

list_refs-IsCopied_example :
    All (IsCopied cluster spec namespaces items) (secrets ∷ roles ∷ [])
    × All (λ it. Some (λ ref. IsListed cluster spec namespaces ref it) (secrets ∷ roles ∷ [])) items
unfolding list_refs
list_refs-IsCopied_example =
    list_refs-IsCopied cluster spec namespaces (secrets ∷ roles ∷ []) items refl

listing_test : map (λ it. it.object.name) items ≡ "db" ∷ "shop-admin" ∷ []
unfolding list_refs skip_obj has_prefix has_suffix
listing_test = refl
