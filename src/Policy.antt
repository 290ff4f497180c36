-- ===== src/Policy.antt =====
-- internal/controller/policy_controller.go: the Policy as its reconciler reads it, the names that
-- it reserves for the Actions that it creates, and the verdict on the health of its backups. The
-- inventory row for the object graph is the one of internal/controller/cluster_objects.go.
pub mod Actions
pub mod Names
pub mod Verdict
pub mod Server
pub mod Once
pub mod Settled
pub mod Restored
pub mod Pass
mod Memory
mod Tests
use portage.Base.{
  ℕ, ◌+◌, ◌-◌, ◌/◌, ◌%◌, String, ◌<>◌, ◌==◌, Bool, true, false, not, ◌&&◌, Option, none, some, List,
  [], ◌∷◌, ◌++◌, map, if◌then◌else◌, Map, any, length, keep, ltb, nat_text, at_most,
}
use portage.Api.{WorkloadClass, cluster_objects, is_stateless, ArtifactHealth, Time, Duration}
use portage.Classify.{Workload, Inventory, holds_state}
use portage.Backup.{healthy}
use portage.Controller.Frozen.{is_object_graph}

-- The Policy: its metadata, and of its spec what the reconciler reads.
pub record Policy : Type 0 where
  pub name : String
  pub namespace : String
  pub namespaces : List String
  pub backup_enabled : Bool
  pub backup_rpo : String
  pub replicate_enabled : Bool
  pub restore_auto : Bool
  pub objects_enabled : Bool

-- `PolicyPhase`
pub data PolicyPhase : Type 0 where
  policy_pending policy_healthy policy_degraded policy_unhealthy : PolicyPhase
  other_policy : String → PolicyPhase

pub record InventoryItem : Type 0 where
  pub namespace : String
  pub name : String
  pub kind : String
  pub class : WorkloadClass
  pub engine : String
  pub pvc_names : List String
  pub mover : String
  pub unclassified : Bool

pub record PolicyStatus : Type 0 where
  pub phase : PolicyPhase
  pub message : String
  pub inventory : List InventoryItem
  pub artifacts : List ArtifactHealth
  pub backup_healthy : Bool
  pub replica_lag : String
  pub observed_generation : ℕ

-- `replicateName`
unfoldable pub replicate_name : String → String
replicate_name policy = at_most 63 ("replicate-" <> policy)

-- `autoRestoreName`
unfoldable pub auto_restore_name : String → String
auto_restore_name policy = at_most 63 ("restore-auto-" <> policy)

-- `t.Truncate(d)` of a positive duration. A time counts from the zero time of Go, the start of
-- year 1.
abbrev pub truncate : Time → Duration → Time
truncate t d = t - t % d

-- `t.Unix()` under `%d`: the seconds from the start of 1970, 62135596800 seconds after the zero time.
abbrev pub unix_text : Time → String
unix_text t =
    let s : ℕ = t / 1_000_000_000 in
    if ltb s 62_135_596_800
    then "-" <> nat_text (62_135_596_800 - s)
    else nat_text (s - 62_135_596_800)

-- `rpoBackupName`
unfoldable pub rpo_backup_name : String → Time → Duration → String
rpo_backup_name policy now d = at_most 63 ("backup-" <> policy <> "-" <> unix_text (truncate now d))

-- `clusterobjects.Synthetic`
unfoldable pub synthetic : String → Workload
synthetic ns = record {
  namespace = if ns == "" then "default" else ns;
  name = "cluster-objects";
  kind = "ObjectGraph";
  api_version = "portage.io/v1alpha1";
  class = cluster_objects;
  engine = "";
  images = [];
  pvc_names = [];
  unclassified = false;
  fs_group = none;
  run_as_user = none;
}

abbrev pub first_or : String → List String → String
first_or default [] = default
first_or default (ns ∷ _) = ns

-- `withClusterObjects`
unfoldable pub with_cluster_objects : Policy → Inventory → Inventory
unfolding is_object_graph synthetic
with_cluster_objects pol inv =
    if not pol.objects_enabled
    then inv
    else if any is_object_graph inv.workloads
    then inv
    else let ns = if pol.namespace == "" then first_or "" pol.namespaces else pol.namespace in
      record inv { workloads = inv.workloads ++ synthetic ns ∷ [] }

-- The row of a workload in the status.
abbrev pub item : Workload → InventoryItem
item w = record {
  namespace = w.namespace;
  name = w.name;
  kind = w.kind;
  class = w.class;
  engine = w.engine;
  pvc_names = w.pvc_names;
  mover = "";
  unclassified = w.unclassified;
}

-- What `invForHealth` holds of a row.
abbrev pub for_health : InventoryItem → Workload
for_health it = record {
  namespace = it.namespace;
  name = it.name;
  kind = it.kind;
  api_version = "";
  class = it.class;
  engine = it.engine;
  images = [];
  pvc_names = [];
  unclassified = false;
  fs_group = none;
  run_as_user = none;
}

abbrev missing_message : List String → String
missing_message [] = "stateful workloads have no useful backup"
missing_message (k ∷ _) = "backup not useful: " <> k

-- The `switch` on the health of the inventory: the phase and its message.
unfoldable pub verdict : ℕ → ℕ → ℕ → Bool → List String → PolicyPhase × String
verdict items stateful unclassified ok missing =
    if ltb 0 stateful && not ok
    then (policy_unhealthy, missing_message missing)
    else if ltb 0 unclassified
    then (
      policy_degraded,
      nat_text items
          <> " workloads ("
          <> nat_text stateful
          <> " stateful, "
          <> nat_text unclassified
          <> " unclassified)",
    )
    else (policy_healthy, nat_text items <> " workloads (" <> nat_text stateful <> " stateful)")

-- The part of `Reconcile` between the walk and the write of the status.
unfoldable pub judge : ℕ → PolicyStatus → Inventory → PolicyStatus
unfolding verdict healthy
judge generation status inv =
    let items = map item inv.workloads in
    let (ok, missing) =
      healthy (record { namespaces = []; workloads = map for_health items }) status.artifacts in
    let (phase, message) =
      verdict (length items) (length (keep holds_state inv.workloads))
        (length (keep (λ w. w.unclassified) inv.workloads)) ok missing in
    record status {
      phase = phase;
      message = message;
      inventory = items;
      backup_healthy = ok;
      observed_generation = generation;
    }

-- One attempt of `writeStatus`: the fields that this pass decides, put on what is stored.
unfoldable pub merge_status : PolicyStatus → PolicyStatus → PolicyStatus
merge_status status latest = record latest {
  phase = status.phase;
  message = status.message;
  inventory = status.inventory;
  backup_healthy = status.backup_healthy;
  observed_generation = status.observed_generation;
}
