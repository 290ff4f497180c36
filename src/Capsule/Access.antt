-- ===== src/Capsule/Access.antt =====
-- pkg/clusterobjects/capsule_access.go: what the destination records of a caller. The answers of the
-- API server to a list or a read, one for each version of the resource, are arguments.
use portage.Base.{
  String, ◌==◌, Bool, true, false, not, ◌||◌, Option, none, some, List, [], ◌∷◌, if◌then◌else◌, any,
  str_contains,
}
use portage.Graph.Sync.{Answer, not_found, failure}
use portage.Capsule.{Caller, Entry}

-- A read that gave an object, or an error.
pub data Read {ℓ} (A : Type ℓ) : Type ℓ where
  got : A → Read A
  no : Answer → Read A

-- `isNoMatch`
unfoldable pub is_no_match : Answer → Bool
is_no_match (failure s) =
    str_contains s "no matches for"
    || str_contains s "could not find the requested resource"
    || str_contains s "not registered"
is_no_match _ = false

-- `apierrors.IsNotFound(err) || isNoMatch(err)`
abbrev pub is_absent : Answer → Bool
is_absent not_found = true
is_absent answer = is_no_match answer

-- A Tenant and a CapsuleConfiguration, by the lists that are read.
pub record Tenant : Type 0 where
  pub spec_owners : List Entry
  pub status_owners : List Entry

pub record Configuration : Type 0 where
  pub name : String
  pub spec_users : List Entry
  pub status_users : List Entry
  pub user_names : List String
  pub user_groups : List String

-- `groupContains`
abbrev pub group_contains : List String → String → Bool
group_contains groups want = any (λ group. group == want) groups

-- The body of the loop of `subjectListed`.
unfoldable pub matches_subject : Caller → Entry → Bool
matches_subject caller e =
    if not e.is_object
    then false
    else if e.name == ""
    then false
    else if e.kind == "User" || e.kind == "ServiceAccount"
    then e.name == caller.name
    else if e.kind == "Group"
    then group_contains caller.groups e.name
    else false

-- `subjectListed`
unfoldable pub subject_listed : List Entry → Caller → Bool
unfolding matches_subject
subject_listed entries caller = any (matches_subject caller) entries

-- `legacyCapsuleUsers`
unfoldable pub legacy_capsule_users : Configuration → Caller → Bool
legacy_capsule_users c caller =
    group_contains c.user_names caller.name
    || any (λ group. group_contains caller.groups group) c.user_groups

-- The loop of `listCapsuleConfigurations`: `none` where the list is not known.
unfoldable pub list_from : Bool → List (Read (List Configuration)) → Option (List Configuration)
unfolding is_no_match
list_from saw [] = if saw then some [] else none
list_from saw (got [] ∷ answers) = list_from true answers
list_from saw (got (c ∷ cs) ∷ answers) = some (c ∷ cs)
list_from saw (no answer ∷ answers) =
    let rest = list_from saw answers in if is_absent answer then rest else none

-- `listCapsuleConfigurations`; a client that panics answers nothing.
unfoldable pub list_capsule_configurations :
    List (Read (List Configuration)) → Option (List Configuration)
unfolding list_from
list_capsule_configurations answers = list_from false answers

abbrev first_or : List Configuration → Option Configuration → Option Configuration
first_or cs (some c) = some c
first_or [] none = none
first_or (c ∷ cs) none = some c

unfoldable pub find_default : List Configuration → Option Configuration
find_default [] = none
find_default (c ∷ cs) = if c.name == "default" then some c else find_default cs

-- `pickCapsuleConfiguration`
unfoldable pub pick_capsule_configuration : List Configuration → Option Configuration
unfolding find_default
pick_capsule_configuration cs = first_or cs (find_default cs)

-- The loop of `findDestTenant` and of `getDestTenant`: the Tenant in the first version that has it;
-- else the last error that is not its absence, or `NotFound`.
unfoldable pub find_dest_tenant : Answer → List (Read Tenant) → Read Tenant
unfolding is_no_match
find_dest_tenant denied [] = no denied
find_dest_tenant denied (got t ∷ answers) = got t
find_dest_tenant denied (no answer ∷ answers) =
    find_dest_tenant (if is_absent answer then denied else answer) answers

-- `capsuleAccess`
pub record CapsuleAccess : Type 0 where
  pub read : Bool
  pub config_read : Bool
  pub config_name : String
  pub user_in_status : Bool
  pub user_in_spec : Bool
  pub owner_in_status : Bool
  pub owner_in_spec : Bool

abbrev pub no_access : CapsuleAccess
no_access = record {
  read = false;
  config_read = false;
  config_name = "";
  user_in_status = false;
  user_in_spec = false;
  owner_in_status = false;
  owner_in_spec = false;
}

abbrev note_pick : Caller → Option Configuration → CapsuleAccess → CapsuleAccess
note_pick caller none access = access
note_pick caller (some c) access = record access {
  config_name = c.name;
  user_in_status = subject_listed c.status_users caller;
  user_in_spec = subject_listed c.spec_users caller || legacy_capsule_users c caller;
}

abbrev note_configurations : Caller → Option (List Configuration) → CapsuleAccess → CapsuleAccess
note_configurations caller none access = access
note_configurations caller (some cs) access =
    note_pick caller (pick_capsule_configuration cs)
      (record access { read = true; config_read = true })

abbrev note_tenant : Caller → Read Tenant → CapsuleAccess → CapsuleAccess
note_tenant caller (no answer) access = access
note_tenant caller (got t) access = record access {
  read = true;
  owner_in_spec = subject_listed t.spec_owners caller;
  owner_in_status = subject_listed t.status_owners caller;
}

-- `observeCapsuleCaller`, with a client.
unfoldable pub observe_capsule_caller :
    String → Caller → List (Read (List Configuration)) → List (Read Tenant) → CapsuleAccess
unfolding subject_listed legacy_capsule_users list_capsule_configurations pick_capsule_configuration
    find_dest_tenant
observe_capsule_caller tenant caller configurations tenants =
    if caller.name == "" || tenant == ""
    then no_access
    else note_tenant caller (find_dest_tenant not_found tenants)
        (note_configurations caller (list_capsule_configurations configurations) no_access)
