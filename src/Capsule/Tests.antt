-- ===== src/Capsule/Tests.antt =====
-- A service principal that is registered on a Tenant, and the namespace that is created then.
use portage.Base.{
  ℕ, ◌<◌, ◌≡◌, String, ◌||◌, refl, true, none, some, List, [], ◌∷◌, ◌++◌, if◌then◌else◌, nat_beq,
  str_contains, at_most, has_prefix,
}
use portage.Kube.{OwnerReference}
use portage.Graph.Sync.{fine, not_found, conflict}
use portage.Capsule.{
  Caller, Entry, Owned, owner_identity, subject_from_username, keep_dest_tenant_owners,
  keep_dest_capsule_owners, annotate_namespace_error, Hint,
}
use portage.Capsule.Access.{got, no, Tenant}
use portage.Capsule.Ensure.{
  Attempt, settled, TenantOwners, new_owner, ensure_tenant_spec_owner, tenant_owner_name,
}
use portage.Capsule.Namespace.{Destination, sync_namespace}
use portage.Capsule.Union.{
  IsTenant, has_owner, keep_dest_tenant_owners-IsUnion, keep_dest_tenant_owners-again,
}
use portage.Capsule.Granted.{IsGranted, ensure_tenant_spec_owner-IsGranted}
use portage.Capsule.Admitted.{IsAdmitted, IsOwned, sync_namespace-IsAdmitted}

abbrev principal : Caller
principal = record { kind = "User"; name = "0c8d"; groups = [] }

principal_test : subject_from_username "0c8d" ≡ principal
unfolding subject_from_username has_prefix
principal_test = refl

abbrev alice : Entry
alice = record { is_object = true; kind = "User"; name = "alice"; rest = "" }

abbrev source : Owned
source = record { kind = "Tenant"; api_version = "capsule.clastix.io/v1beta2"; owners = alice ∷ [] }

abbrev dest : Owned
dest = record source { owners = new_owner principal ∷ alice ∷ [] }

kept : (keep_dest_tenant_owners source dest).owners ≡ alice ∷ new_owner principal ∷ []
unfolding keep_dest_tenant_owners has_prefix
kept = refl

source-IsTenant : IsTenant source
unfolding has_prefix
source-IsTenant = (refl, refl)

keep_dest_tenant_owners-IsUnion_example :
    ((key : String × String)
      → has_owner (keep_dest_tenant_owners source dest).owners key
        ≡ (has_owner source.owners key || has_owner dest.owners key))
    × ((more : List Entry) × ((keep_dest_tenant_owners source dest).owners ≡ source.owners ++ more))
keep_dest_tenant_owners-IsUnion_example =
    keep_dest_tenant_owners-IsUnion source dest source-IsTenant

keep_dest_tenant_owners-again_example :
    (keep_dest_tenant_owners source (keep_dest_tenant_owners source dest)).owners
    ≡ (keep_dest_tenant_owners source dest).owners
unfolding owner_identity
keep_dest_tenant_owners-again_example =
    keep_dest_tenant_owners-again source dest source-IsTenant (refl, tt)

abbrev tenant : Tenant
tenant = record { spec_owners = alice ∷ []; status_owners = [] }

-- The first update meets a conflict.
abbrev attempts : ℕ → Attempt
attempts i = record { tenants = got tenant ∷ []; update = if nat_beq i 0 then conflict else fine }

granted :
    ensure_tenant_spec_owner principal attempts ≡ settled (some (alice ∷ new_owner principal ∷ []))
unfolding ensure_tenant_spec_owner
granted = refl

ensure_tenant_spec_owner-IsGranted_example :
    (j : ℕ) × (j < 4) × IsGranted principal (some (alice ∷ new_owner principal ∷ [])) (attempts j)
ensure_tenant_spec_owner-IsGranted_example =
    ensure_tenant_spec_owner-IsGranted principal attempts (some (alice ∷ new_owner principal ∷ []))
      (refl, refl) granted

abbrev nobody : TenantOwners
nobody = record { probe = λ n. not_found ∷ []; fetch = λ n. no not_found; create = λ n. fine }

abbrev ready : Destination
ready = record {
  tenant = "shop";
  caller = principal;
  exists = got tenant ∷ [];
  attempts = attempts;
  configurations = [];
  tenant_owners = nobody;
  suffix = λ c. "0a1b";
  configurations' = [];
  tenants' = got (record tenant { status_owners = new_owner principal ∷ [] }) ∷ [];
  create = fine;
  current = no not_found;
  rounds = λ i. record { read = fine; write = fine };
}

created : (sync_namespace ready).created ≡ true
unfolding sync_namespace at_most
created = refl

sync_namespace-IsAdmitted_example :
    ((sync_namespace ready).created ≡ true → IsAdmitted ready)
    × ((sync_namespace ready).updated ≡ true → IsOwned ready)
    × ((sync_namespace ready).error ≡ none → (sync_namespace ready).created ≡ true)
sync_namespace-IsAdmitted_example = sync_namespace-IsAdmitted ready refl

name_test : tenant_owner_name "shop" "0a1b" ≡ "portage-shop-0a1b"
unfolding tenant_owner_name at_most
name_test = refl

abbrev no_text : Hint → String
no_text hint = "register the caller"

annotated :
    annotate_namespace_error no_text "shop" "admission webhook denied"
    ≡ "admission webhook denied. register the caller"
unfolding annotate_namespace_error str_contains
annotated = refl

abbrev owner_of : String → OwnerReference
owner_of name = record { api_version = "capsule.clastix.io/v1beta2"; kind = "Tenant"; name = name }

refs_test : keep_dest_capsule_owners "Namespace" [] (owner_of "shop" ∷ []) ≡ owner_of "shop" ∷ []
unfolding keep_dest_capsule_owners has_prefix
refs_test = refl
