-- ===== src/Api.antt =====
-- api/v1alpha1: the types of the custom resources, as far as the other parts read or write them.
-- A status that the machines return whole (phase, message, workloads, attestation) is kept; its
-- book-keeping fields (start and completion time, conditions, observed generation) are not.

use portage.Base.{ℕ, ◌*◌, String, Bool, true, false, Option, List, ◌==◌}

-- `WorkloadClass`; `other_class` is a text that the enumeration does not have.
pub data WorkloadClass : Type 0 where
  stateless generic_pvc sql_logical kv_logical search_fs : WorkloadClass
  queue_durable object_store operator_managed unknown_stateful cluster_objects : WorkloadClass
  other_class : String → WorkloadClass

-- The text of a class.
abbrev pub class_text : WorkloadClass → String
class_text stateless = "Stateless"
class_text generic_pvc = "GenericPVC"
class_text sql_logical = "SQLLogical"
class_text kv_logical = "KVLogical"
class_text search_fs = "SearchFS"
class_text queue_durable = "QueueDurable"
class_text object_store = "ObjectStore"
class_text operator_managed = "OperatorManaged"
class_text unknown_stateful = "UnknownStateful"
class_text cluster_objects = "ClusterObjects"
class_text (other_class text) = text

-- `a == b` on classes
abbrev pub same_class : WorkloadClass → WorkloadClass → Bool
same_class a b = class_text a == class_text b

-- `class == ClassStateless`
abbrev pub is_stateless : WorkloadClass → Bool
is_stateless stateless = true
is_stateless _ = false

-- `ActionPhase`; `unset` is the empty text, `other_phase` one that the enumeration does not have.
pub data ActionPhase : Type 0 where
  unset pending preflight quiescing rehydrating applying waiting_ready healing : ActionPhase
  catching_up promoting switching attesting succeeded failed rolled_back : ActionPhase
  other_phase : String → ActionPhase

-- The phases after which an Action does not go on.
abbrev pub is_final : ActionPhase → Bool
is_final succeeded = true
is_final failed = true
is_final rolled_back = true
is_final _ = false

-- `if phase == "" { phase = ActionPhasePending }`
abbrev pub or_pending : ActionPhase → ActionPhase
or_pending unset = pending
or_pending phase = phase

pub record WorkloadActionStatus : Type 0 where
  pub name : String
  pub key : String
  pub class : WorkloadClass
  pub engine : String
  pub ready : Bool
  pub probe : String
  pub probe_ok : Bool
  pub message : String
  pub healed : List String

-- The zero value, which a read of a missing map entry returns.
abbrev pub no_status : WorkloadActionStatus
no_status = record {
  name = "";
  key = "";
  class = other_class "";
  engine = "";
  ready = false;
  probe = "";
  probe_ok = false;
  message = "";
  healed = List.[];
}

-- `time.Time` and `time.Duration`, in nanoseconds.
abbrev pub Time : Type 0
Time = ℕ

abbrev pub Duration : Type 0
Duration = ℕ

abbrev pub seconds : ℕ → Duration
seconds n = n * 1_000_000_000

pub record Attestation : Type 0 where
  pub recorded_at : Time
  pub source : String
  pub workloads : List WorkloadActionStatus
  pub artifact_ids : List String

pub record ActionStatus : Type 0 where
  pub phase : ActionPhase
  pub message : String
  pub workloads : List WorkloadActionStatus
  pub attestation : Option Attestation

-- The entry of `PolicyStatus.artifacts` for one workload; the time of the last backup is left out.
pub record ArtifactHealth : Type 0 where
  pub workload : String
  pub useful : Bool
  pub size_bytes : ℕ
  pub artifact_id : String
  pub message : String
