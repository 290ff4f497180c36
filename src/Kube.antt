-- ===== src/Kube.antt =====
-- The objects of the Kubernetes API, as records of the fields that the program reads or writes.
-- A pointer is an `Option`; a nil and an empty map or list are one where the code treats them so.
use portage.Base.{ℕ, String, Option, List, Map}

-- `SecurityContext.RunAsUser` of a container: `none` where either is nil.
pub record Container : Type 0 where
  pub image : String
  pub run_as_user : Option ℕ

pub record SecurityContext : Type 0 where
  pub fs_group : Option ℕ
  pub run_as_user : Option ℕ

pub record Requirement : Type 0 where
  pub key : String
  pub values : List String

pub record NodeSelectorTerm : Type 0 where
  pub match_expressions : List Requirement
  pub match_fields : List Requirement

-- `RequiredDuringSchedulingIgnoredDuringExecution` is `none` where it is nil.
pub record NodeAffinity : Type 0 where
  pub required : Option (List NodeSelectorTerm)

-- `pods` stands for the affinities between pods, which the program leaves alone.
pub record Affinity : Type 0 where
  pub node_affinity : Option NodeAffinity
  pub pods : List String

pub record Toleration : Type 0 where
  pub key : String
  pub effect : String

-- A volume is the name of the claim that it mounts, `none` for a volume of another kind.
pub record PodSpec : Type 0 where
  pub init_containers : List Container
  pub containers : List Container
  pub volumes : List (Option String)
  pub security_context : Option SecurityContext
  pub node_selector : Map String
  pub node_name : String
  pub affinity : Option Affinity
  pub topology_spread_constraints : List String
  pub tolerations : List Toleration

pub record OwnerReference : Type 0 where
  pub api_version : String
  pub kind : String
  pub name : String

pub record PersistentVolumeClaim : Type 0 where
  pub name : String
  pub namespace : String
  pub uid : String
  pub resource_version : String
  pub generation : ℕ
  pub managed_fields : List String
  pub labels : Map String
  pub annotations : Map String
  pub owner_references : List OwnerReference
  pub volume_name : String
  pub storage_class_name : Option String
  pub selector : Option (Map String)
  pub data_source : Option String
  pub data_source_ref : Option String
  pub phase : String

-- A claim template counts by its name; `replicas` is `none` where the pointer is nil.
pub record StatefulSet : Type 0 where
  pub name : String
  pub template : PodSpec
  pub replicas : Option ℕ
  pub volume_claim_templates : List String

-- A Deployment or a DaemonSet.
pub record Controller : Type 0 where
  pub name : String
  pub template : PodSpec
