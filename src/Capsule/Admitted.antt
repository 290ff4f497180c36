-- ===== src/Capsule/Admitted.antt =====
-- When a namespace is created on the destination.
use portage.Base.{
  String, ◌==◌, ◌≡◌, ◌≢◌, refl, Bool, true, false, not, ◌&&◌, Option, none, List, ◌⊎◌, inl, inr,
  arith, if◌then◌else◌,
}
use portage.Kube.{OwnerReference}
use portage.Graph.Sync.{
  Answer, fine, not_found, forbidden, method_not_supported, already_exists, conflict, failure,
}
use portage.Capsule.{has_capsule_owner}
use portage.Capsule.Access.{
  Read, got, no, Tenant, find_dest_tenant, observe_capsule_caller, is_absent,
}
use portage.Capsule.Ensure.{
  Registered, registered, not_registered, name_taken, ensure_capsule_caller,
}
use portage.Capsule.Namespace.{
  NamespaceError, Synced, Destination, stopped, not_admitted, on_existing, on_create, on_registered,
  on_tenant, sync_namespace,
}

-- The caller was registered, and the Tenant's status lists it as an owner.
abbrev pub IsRegistered : Destination → Type 0
IsRegistered d =
    ((name : Option String) × (ensure_capsule_caller d.attempts d.configurations d.tenant_owners
          d.suffix d.tenant d.caller
        ≡ registered name))
    × ((observe_capsule_caller d.tenant d.caller d.configurations' d.tenants').owner_in_status
        ≡ true)

-- The Tenant of the label is on the destination, and the caller, if it is known, is registered.
abbrev pub IsAdmitted : Destination → Type 0
IsAdmitted d =
    ((t : Tenant) × (find_dest_tenant not_found d.exists ≡ got t))
    × (((d.caller.name == "") ≡ true) ⊎ IsRegistered d)

false_ne_true : false ≢ true
false_ne_true e = cc

-- A Tenant owns the namespace that is there.
abbrev pub IsOwned : Destination → Type 0
IsOwned d = (refs : List OwnerReference) × (d.current ≡ got refs) × (has_capsule_owner refs ≡ true)

-- A create was asked for only under `A`, an update only of an owned namespace, and no error is told
-- unless a create was asked for.
abbrev pub Respects : Destination → Type 0 → Synced → Type 0
Respects d A s =
    (s.created ≡ true → A) × (s.updated ≡ true → IsOwned d) × (s.error ≡ none → s.created ≡ true)

stopped-Respects : (d : Destination) (A : Type 0) (e : NamespaceError) → Respects d A (stopped e)
stopped-Respects d A e = (λ h. absurd (false_ne_true h), λ h. absurd (false_ne_true h), λ h. cc)

if-Respects :
    (d : Destination) (A : Type 0) (b : Bool) (s t : Synced)
    → (b ≡ true → Respects d A s)
    → (b ≡ false → Respects d A t)
    → Respects d A (if b then s else t)
if-Respects d A true s t f g = f refl
if-Respects d A false s t f g = g refl

module _ (d : Destination) (tenant : (d.tenant == "") ≡ false) where
  on_existing-Respects :
      (r : Read (List OwnerReference)) → d.current ≡ r → Respects d (Unit {0}) (on_existing d r)
  on_existing-Respects (no answer) e = (λ _. tt, λ h. absurd (false_ne_true h), λ _. refl)
  on_existing-Respects (got refs) e =
      if-Respects d (Unit {0}) (not (d.tenant == "") && not (has_capsule_owner refs)) _ _
        (λ _. (λ _. tt, λ h. absurd (false_ne_true h), λ _. refl))
        (λ owned. (λ _. tt, λ _. (refs, e, ground arith), λ _. refl))

  on_create-Respects : (answer : Answer) → Respects d (Unit {0}) (on_create d answer)
  on_create-Respects already_exists = on_existing-Respects d.current refl
  on_create-Respects fine = (λ _. tt, λ h. absurd (false_ne_true h), λ _. refl)
  on_create-Respects not_found = (λ _. tt, λ h. absurd (false_ne_true h), λ _. refl)
  on_create-Respects forbidden = (λ _. tt, λ h. absurd (false_ne_true h), λ _. refl)
  on_create-Respects method_not_supported = (λ _. tt, λ h. absurd (false_ne_true h), λ _. refl)
  on_create-Respects conflict = (λ _. tt, λ h. absurd (false_ne_true h), λ _. refl)
  on_create-Respects (failure e) = (λ _. tt, λ h. absurd (false_ne_true h), λ _. refl)

  create-Respects : (A : Type 0) → A → Respects d A (on_create d d.create)
  create-Respects A a = let (_, owned, told) = on_create-Respects d.create in (λ _. a, owned, told)

  on_registered-Respects :
      (r : Registered)
      → ensure_capsule_caller d.attempts d.configurations d.tenant_owners d.suffix d.tenant d.caller
        ≡ r
      → Respects d (IsRegistered d) (on_registered d r)
  on_registered-Respects (registered name) e =
      let access = observe_capsule_caller d.tenant d.caller d.configurations' d.tenants' in
      if-Respects d (IsRegistered d) (not access.owner_in_status) _ _
        (λ _. stopped-Respects d (IsRegistered d) not_admitted)
        (λ listed. create-Respects (IsRegistered d) ((name, e), ground arith))
  on_registered-Respects (not_registered a) e = stopped-Respects d (IsRegistered d) _
  on_registered-Respects name_taken e = stopped-Respects d (IsRegistered d) _

  on_tenant-Respects :
      (r : Read Tenant)
      → find_dest_tenant not_found d.exists ≡ r
      → Respects d (IsAdmitted d) (on_tenant d r)
  on_tenant-Respects (no answer) e =
      if-Respects d (IsAdmitted d) (is_absent answer) _ _ (λ _. stopped-Respects d (IsAdmitted d) _)
        (λ _. stopped-Respects d (IsAdmitted d) _)
  on_tenant-Respects (got t) e =
      if-Respects d (IsAdmitted d) (not (d.caller.name == "")) _ _
        (λ known.
          let (listed, owned, told) = on_registered-Respects _ refl in
          (λ h. ((t, e), inr (listed h)), owned, told))
        (λ unknown. create-Respects (IsAdmitted d) ((t, e), inl (ground arith)))

  -- A namespace with the label of a Tenant is created on the destination only if the Tenant is there and
  -- the caller is either unknown or registered, with its registration in `status.owners`. A namespace
  -- that is there is updated only if a Tenant owns it. No error is told only if a create was asked for.
  pub sync_namespace-IsAdmitted :
      ((sync_namespace d).created ≡ true → IsAdmitted d)
      × ((sync_namespace d).updated ≡ true → IsOwned d)
      × ((sync_namespace d).error ≡ none → (sync_namespace d).created ≡ true)
  unfolding sync_namespace
  sync_namespace-IsAdmitted =
      if-Respects d (IsAdmitted d) (not (d.tenant == "")) _ _
        (λ _. on_tenant-Respects (find_dest_tenant not_found d.exists) refl)
        (λ none_given. absurd (ground arith))
