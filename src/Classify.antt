-- ===== src/Classify.antt =====
-- pkg/classify/class.go: the classified unit of compute and durable state, and the inventory.
pub mod Catalog
pub mod Pods
pub mod Walk
pub mod Match
pub mod Coverage
pub mod Complete
mod Tests
use portage.Base.{ℕ, String, ◌<>◌, Option, List, Bool, not, keep}
use portage.Api.{WorkloadClass, is_stateless}

pub record Workload : Type 0 where
  pub namespace : String
  pub name : String
  pub kind : String
  pub api_version : String
  pub class : WorkloadClass
  pub engine : String
  pub images : List String
  pub pvc_names : List String
  pub unclassified : Bool
  -- Group and user ids; the Kubernetes API admits none below 0.
  pub fs_group : Option ℕ
  pub run_as_user : Option ℕ

-- `Workload.Key`: namespace/kind/name
unfoldable pub key : Workload → String
key w = w.namespace <> "/" <> w.kind <> "/" <> w.name

pub record Inventory : Type 0 where
  pub namespaces : List String
  pub workloads : List Workload

-- `w.Class != ClassStateless`
abbrev pub holds_state : Workload → Bool
holds_state w = not (is_stateless w.class)

-- `Inventory.Stateful`
unfoldable pub stateful : Inventory → List Workload
stateful inv = keep holds_state inv.workloads
