-- ===== src/Graph/Tests.antt =====
-- A cluster with tenants and routes.
use portage.Base.{
  ℕ, zero, String, ◌≡◌, ◌↔◌, refl, Bool, true, false, Option, none, some, List, [], ◌∷◌, All, any,
  Ordered,
}
use mathlib.Core.List.{Perm}
use portage.Graph.{excluded_gvr}
use portage.Graph.Discover.{ApiResource, ApiResourceList, ClusterObjectsSpec, discover}
use portage.Graph.Discover.Exact.{has_key, wanted, discover-IsExact}
use portage.Graph.Sync.{
  Item, fine, already_exists, conflict, Round, update_with_retry, Calls, sync_one, sync, Reply,
  found, attest_items, text,
}
use portage.Graph.Sync.Order.{rank_before, first_error, sync-IsOrdered}
use portage.Graph.Sync.Retry.{
  Settles, update_with_retry-eq-fine_iff, IsSynced, sync_one-eq-none_iff,
}
use portage.Graph.Sync.Attested.{IsAttested, attest_items-IsAttested}

abbrev resource : String → String → Bool → ApiResource
resource name kind namespaced = record {
  name = name;
  namespaced = namespaced;
  kind = kind;
  verbs = "create" ∷ "list" ∷ [];
}

abbrev gateway : ApiResourceList
gateway = record {
  group_version = "gateway.networking.k8s.io/v1";
  resources =
      resource "gatewayclasses" "GatewayClass" false ∷ resource "httproutes" "HTTPRoute" true ∷ [];
}

abbrev spec : ClusterObjectsSpec
spec = record {
  include_cluster_scoped = none;
  exclude_namespaces = [];
  exclude_gvks = " gateway.networking.k8s.io/GatewayClass" ∷ [];
}

abbrev parse : String → Option (String × String)
parse gv = some ("gateway.networking.k8s.io", "v1")

discover-IsExact_example :
    has_key "gateway.networking.k8s.io/httproutes" (discover parse spec (gateway ∷ []))
    ≡ any (wanted parse spec "gateway.networking.k8s.io/httproutes") (gateway ∷ [])
discover-IsExact_example =
    discover-IsExact parse spec "gateway.networking.k8s.io/httproutes" (gateway ∷ [])

exclude_test :
    excluded_gvr
      (record {
        group = "gateway.networking.k8s.io";
        version = "v1";
        resource = "gatewayclasses";
        namespaced = false;
      })
      ""
      spec.exclude_gvks
    ≡ true
unfolding excluded_gvr
exclude_test = refl

abbrev item : String → String → Item
item resource name = record {
  ref = record { group = ""; version = "v1"; resource = resource; namespaced = false };
  namespace = "";
  name = name;
  kind = "Thing";
  deleting = false;
}

abbrev items : List Item
items = item "secrets" "db" ∷ item "namespaces" "shop" ∷ []

abbrev fails : Item → Option String
fails it = some it.name

sync-IsOrdered_example :
    (order : List Item) × Perm order items
    × Ordered rank_before order
    × (sync fails items ≡ first_error fails order)
sync-IsOrdered_example = sync-IsOrdered fails items

sync_test : sync fails items ≡ some "shop"
unfolding sync
sync_test = refl

-- A conflict, then an update that is taken.
abbrev rounds : ℕ → Round
rounds zero = record { read = fine; write = conflict }
rounds _ = record { read = fine; write = fine }

update_with_retry-eq-fine_iff_example : (update_with_retry rounds 4 ≡ fine) ↔ Settles rounds 0 4
update_with_retry-eq-fine_iff_example = update_with_retry-eq-fine_iff rounds 3

abbrev calls : Calls
calls = record { delete = fine; create = already_exists; rounds = rounds }

sync_one-eq-none_iff_example :
    (sync_one (item "secrets" "db") calls ≡ none) ↔ IsSynced (item "secrets" "db") calls
sync_one-eq-none_iff_example = sync_one-eq-none_iff (item "secrets" "db") calls

sync_one_test : sync_one (item "secrets" "db") calls ≡ none
unfolding sync_one
sync_one_test = refl

abbrev there : Item → Reply
there it = found (record { kind = "Established"; status = text "True" } ∷ [])

attest_items-IsAttested_example :
    ((attest_items there items).0 ≡ true) ↔ All (IsAttested there) items
attest_items-IsAttested_example = attest_items-IsAttested there items

attest_test : (attest_items there items).1 ≡ "2 dest objects attested"
unfolding attest_items
attest_test = refl
