-- ===== src/Capsule/Namespace.antt =====
-- pkg/clusterobjects/sync.go: `syncNamespace`, which brings a namespace to the destination.
use portage.Base.{
  ℕ, String, ◌==◌, Bool, true, false, not, ◌&&◌, Option, none, some, List, if◌then◌else◌,
}
use portage.Kube.{OwnerReference}
use portage.Graph.Sync.{
  Answer, fine, not_found, already_exists, method_not_supported, Round, update_with_retry,
}
use portage.Capsule.{Caller, has_capsule_owner}
use portage.Capsule.Access.{
  Read, got, no, is_absent, Tenant, Configuration, find_dest_tenant, observe_capsule_caller,
}
use portage.Capsule.Ensure.{Attempt, TenantOwners, Registered, registered, ensure_capsule_caller}

-- Why a namespace is not brought over; the texts that wrap the error are left out.
pub data NamespaceError : Type 0 where
  tenant_unreadable : Answer → NamespaceError
  no_tenant : NamespaceError
  caller_unregistered : Registered → NamespaceError
  not_admitted : NamespaceError
  namespace_unreadable : Answer → NamespaceError
  unmanaged : NamespaceError
  rejected : Answer → NamespaceError

-- The error, and whether a create and an update of the namespace were asked for.
pub record Synced : Type 0 where
  pub error : Option NamespaceError
  pub created : Bool
  pub updated : Bool

-- What the pass meets on the destination: the Tenant's label on the namespace, the caller, the reads
-- of the Tenant before and after the caller is registered, the registration, and the namespace.
pub record Destination : Type 0 where
  pub tenant : String
  pub caller : Caller
  pub exists : List (Read Tenant)
  pub attempts : ℕ → Attempt
  pub configurations : List (Read (List Configuration))
  pub tenant_owners : TenantOwners
  pub suffix : Caller → String
  pub configurations' : List (Read (List Configuration))
  pub tenants' : List (Read Tenant)
  pub create : Answer
  pub current : Read (List OwnerReference)
  pub rounds : ℕ → Round

abbrev pub stopped : NamespaceError → Synced
stopped e = record { error = some e; created = false; updated = false }

-- `errors.IsNotFound(err) || errors.IsMethodNotSupported(err)` and nil are no error.
abbrev pub error_of : Answer → Option NamespaceError
error_of fine = none
error_of not_found = none
error_of method_not_supported = none
error_of answer = some (rejected answer)

-- The namespace is there.
abbrev pub on_existing : Destination → Read (List OwnerReference) → Synced
on_existing d (no answer) = record {
  error = some (namespace_unreadable answer);
  created = true;
  updated = false;
}
on_existing d (got refs) =
    if not (d.tenant == "") && not (has_capsule_owner refs)
    then record { error = some unmanaged; created = true; updated = false }
    else record { error = error_of (update_with_retry d.rounds 4); created = true; updated = true }

abbrev pub on_create : Destination → Answer → Synced
on_create d already_exists = on_existing d d.current
on_create d answer = record { error = error_of answer; created = true; updated = false }

abbrev pub on_registered : Destination → Registered → Synced
on_registered d (registered name) =
    let access = observe_capsule_caller d.tenant d.caller d.configurations' d.tenants' in
    if not access.owner_in_status then stopped not_admitted else on_create d d.create
on_registered d result = stopped (caller_unregistered result)

abbrev pub on_tenant : Destination → Read Tenant → Synced
on_tenant d (no answer) =
    if is_absent answer then stopped no_tenant else stopped (tenant_unreadable answer)
on_tenant d (got t) =
    if not (d.caller.name == "")
    then on_registered d (
        ensure_capsule_caller d.attempts d.configurations d.tenant_owners d.suffix d.tenant
          d.caller)
    else on_create d d.create

-- `syncNamespace`; the read of the Tenant is `destTenantExists`.
unfoldable pub sync_namespace : Destination → Synced
unfolding ensure_capsule_caller observe_capsule_caller has_capsule_owner update_with_retry
    find_dest_tenant
sync_namespace d =
    if not (d.tenant == "")
    then on_tenant d (find_dest_tenant not_found d.exists)
    else on_create d d.create
