-- ===== src/Capsule.antt =====
-- pkg/clusterobjects/capsule.go and whoami.go: the subject that the destination authenticates, the
-- owners of a Capsule Tenant and of a namespace, and what an update keeps of those on the destination.
pub mod Access
pub mod Ensure
pub mod Namespace
pub mod Union
pub mod Granted
pub mod Admitted
mod Tests
use portage.Base.{
  String, ◌<>◌, ◌==◌, Bool, true, false, not, ◌&&◌, ◌||◌, Option, none, some, List, [], ◌∷◌, ◌++◌,
  if◌then◌else◌, any, keep, has_prefix, str_contains, is_empty, Map, get,
}
use portage.Kube.{OwnerReference}

abbrev pub capsule_group : String
capsule_group = "capsule.clastix.io"

abbrev pub tenant_label : String
tenant_label = "capsule.clastix.io/tenant"

-- `CapsuleTenant`, of the labels of an object.
unfoldable pub capsule_tenant : Map String → String
capsule_tenant labels = get "" tenant_label labels

-- The subject of a SelfSubjectReview.
pub record Caller : Type 0 where
  pub kind : String
  pub name : String
  pub groups : List String

abbrev pub no_caller : Caller
no_caller = record { kind = ""; name = ""; groups = [] }

-- `subjectFromUsername`
unfoldable pub subject_from_username : String → Caller
subject_from_username username =
    if username == ""
    then no_caller
    else if has_prefix username "system:serviceaccount:"
    then record { kind = "ServiceAccount"; name = username; groups = [] }
    else record { kind = "User"; name = username; groups = [] }

-- `CallerFromDynamic` and `CallerFromKube`: the user name and the groups of the review, `none` where
-- there is no client, the review failed, or the client panicked.
unfoldable pub caller_from : Option (String × List String) → Caller
unfolding subject_from_username
caller_from none = no_caller
caller_from (some (username, groups)) = record (subject_from_username username) { groups = groups }

-- An element of a list of owners or users: whether it is an object, the texts at its keys `kind` and
-- `name` (empty where there is none), and all else that it says.
pub record Entry : Type 0 where
  pub is_object : Bool
  pub kind : String
  pub name : String
  pub rest : String

-- `ownerIdentity`: the kind and the name, which the code joins by a character that neither has.
unfoldable pub owner_identity : Entry → Option (String × String)
owner_identity e =
    if not e.is_object
    then none
    else if e.kind == "" || e.name == ""
    then none
    else some (e.kind, e.name)

abbrev pub same_identity : String × String → String × String → Bool
same_identity (k, n) (k', n') = k == k' && n == n'

-- Is the key in the set `seen`?
abbrev pub was_seen : List (String × String) → String × String → Bool
was_seen seen key = any (λ other. same_identity other key) seen

abbrev pub see : Option (String × String) → List (String × String) → List (String × String)
see none seen = seen
see (some key) seen = key ∷ seen

-- The loop over the owners of the source: the set that it leaves.
unfoldable pub seen_from : List (String × String) → List Entry → List (String × String)
unfolding owner_identity
seen_from seen [] = seen
seen_from seen (e ∷ es) = seen_from (see (owner_identity e) seen) es

abbrev pub is_duplicate : List (String × String) → Option (String × String) → Bool
is_duplicate seen none = false
is_duplicate seen (some key) = was_seen seen key

-- The loop over the owners of the destination: those that are appended.
unfoldable pub added_from : List (String × String) → List Entry → List Entry
unfolding owner_identity
added_from seen [] = []
added_from seen (e ∷ es) =
    let key = owner_identity e in
    let rest = added_from (see key seen) es in
    let skip = added_from seen es in if is_duplicate seen key then skip else e ∷ rest

-- The list that `KeepDestTenantOwners` sets.
unfoldable pub merge_owners : List Entry → List Entry → List Entry
unfolding seen_from added_from
merge_owners owners current = owners ++ added_from (seen_from [] owners) current

-- A Tenant, or an object that is none, by its kind, its version and its `spec.owners`.
pub record Owned : Type 0 where
  pub kind : String
  pub api_version : String
  pub owners : List Entry

-- `KeepDestTenantOwners`: the object as it is written.
unfoldable pub keep_dest_tenant_owners : Owned → Owned → Owned
unfolding merge_owners
keep_dest_tenant_owners obj cur =
    if not (obj.kind == "Tenant")
    then obj
    else if not (has_prefix obj.api_version (capsule_group <> "/"))
    then obj
    else if is_empty cur.owners
    then obj
    else record obj { owners = merge_owners obj.owners cur.owners }

-- `capsuleOwnerRef`
unfoldable pub capsule_owner_ref : OwnerReference → Bool
capsule_owner_ref ref = ref.kind == "Tenant" && has_prefix ref.api_version (capsule_group <> "/")

-- `HasCapsuleOwner`
unfoldable pub has_capsule_owner : List OwnerReference → Bool
unfolding capsule_owner_ref
has_capsule_owner refs = any capsule_owner_ref refs

-- `KeepDestCapsuleOwners`: the references that the object, of a kind, is written with.
unfoldable pub keep_dest_capsule_owners :
    String → List OwnerReference → List OwnerReference → List OwnerReference
unfolding has_capsule_owner
keep_dest_capsule_owners kind refs current =
    if not (has_capsule_owner current)
    then refs
    else if not (kind == "Namespace") && not (kind == "")
    then refs
    else keep capsule_owner_ref current ++ keep (λ ref. not (capsule_owner_ref ref)) refs

-- The texts that `annotateNamespaceError` may add.
pub data Hint : Type 0 where
  owner_hint unmanaged_namespace missing_tenant : Hint

-- The `switch` of `annotateNamespaceError`, on the text of the error.
unfoldable pub hint_for : String → Option Hint
hint_for s =
    if str_contains s "non-owned Tenant"
      || str_contains s "only tenant owners"
      || str_contains s "no Tenant ownerReference"
    then some owner_hint
    else if str_contains s "patched into a tenant" || str_contains s "both be set"
    then some unmanaged_namespace
    else if str_contains s "not found" && str_contains s "tenants.capsule"
    then some missing_tenant
    else if str_contains s "projectcapsule" || str_contains s "admission webhook"
    then some owner_hint
    else none

abbrev add_hint : (Hint → String) → String → Option Hint → String
add_hint text e none = e
add_hint text e (some hint) = e <> ". " <> text hint

-- `annotateNamespaceError` of an error; `text` gives the hints for the namespace, the Tenant, the
-- caller and what was observed of it.
unfoldable pub annotate_namespace_error : (Hint → String) → String → String → String
unfolding hint_for
annotate_namespace_error text tenant e = if tenant == "" then e else add_hint text e (hint_for e)
