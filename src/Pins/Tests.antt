-- ===== src/Pins/Tests.antt =====
-- A pod that is pinned to a node of the source cluster.
use portage.Base.{◌≡◌, ◌↔◌, refl, none, List, [], ◌∷◌, map, ok, has_prefix, get, lookup}
use portage.Kube.{PodSpec}
use portage.Classify.Catalog.{catalog}
use portage.Pins.{
  Pod, Node, dest_hostnames, delete_pinned_dest_pods, delete_pinned_mover_jobs, pin_message,
  is_volsync_mover_job,
}
use portage.Pins.Unpinned.{healed, delete_pinned_dest_pods-healed, pin_message-eq-empty_iff}

abbrev spec : PodSpec
spec = record {
  init_containers = [];
  containers = [];
  volumes = [];
  security_context = none;
  node_selector = ("kubernetes.io/hostname", "src-1") ∷ [];
  node_name = "";
  affinity = none;
  topology_spread_constraints = [];
  tolerations = [];
}

abbrev pods : List Pod
pods = record { name = "db-0"; phase = "Pending"; spec = spec } ∷ []

abbrev nodes : List Node
nodes =
    record { name = "dst-1"; labels = []; conditions = ("Ready", "True") ∷ [] }
    ∷ record { name = "src-1"; labels = []; conditions = ("Ready", "Unknown") ∷ [] }
    ∷ []

pinned_test : delete_pinned_dest_pods (dest_hostnames (ok nodes)) (ok pods) ≡ "db-0" ∷ []
unfolding delete_pinned_dest_pods dest_hostnames get lookup is_volsync_mover_job has_prefix
pinned_test = refl

delete_pinned_dest_pods-healed_example :
    delete_pinned_dest_pods ("dst-1" ∷ []) (ok (map (healed catalog) pods)) ≡ []
delete_pinned_dest_pods-healed_example = delete_pinned_dest_pods-healed catalog ("dst-1" ∷ []) pods

pin_message-eq-empty_iff_example : (pin_message ("dst-1" ∷ []) [] (ok pods) ≡ "") ↔ (
    (delete_pinned_mover_jobs ("dst-1" ∷ []) (ok []) ≡ [])
    × (delete_pinned_dest_pods ("dst-1" ∷ []) (ok pods) ≡ []))
pin_message-eq-empty_iff_example = pin_message-eq-empty_iff ("dst-1" ∷ []) [] (ok pods)
