-- ===== src/Capsule/Ensure.antt =====
-- pkg/clusterobjects/capsule_ensure.go: the caller is registered as an owner of the Tenant and as a
-- Capsule user. What the API server answers is an argument; what is written is in the result.
use portage.Base.{
  ℕ, zero, suc, ◌+◌, String, ◌<>◌, ◌==◌, Bool, true, false, not, ◌&&◌, ◌||◌, Option, none, some,
  List, [], ◌∷◌, ◌++◌, if◌then◌else◌, at_most,
}
use portage.Graph.Sync.{Answer, fine, not_found, already_exists, conflict, failure}
use portage.Capsule.{Caller, Entry}
use portage.Capsule.Access.{
  Read, got, no, is_no_match, is_absent, Tenant, Configuration, subject_listed, find_dest_tenant,
  list_capsule_configurations, pick_capsule_configuration,
}

-- The owner that is appended; its roles are the one `admin`.
abbrev pub new_owner : Caller → Entry
new_owner caller = record {
  is_object = true;
  kind = caller.kind;
  name = caller.name;
  rest = "clusterRoles: [admin]";
}

-- The answers of one attempt: the reads of the Tenant by version, and the update.
pub record Attempt : Type 0 where
  pub tenants : List (Read Tenant)
  pub update : Answer

-- What an attempt came to: the owners that it wrote, `none` where it wrote nothing, or an error.
pub data Attempted : Type 0 where
  settled : Option (List Entry) → Attempted
  refused : Answer → Attempted

abbrev pub after_update : List Entry → Answer → Attempted
after_update owners fine = settled (some owners)
after_update owners answer = refused answer

abbrev pub on_tenant : Caller → Answer → Read Tenant → Attempted
on_tenant caller update (no answer) = refused answer
on_tenant caller update (got t) =
    if subject_listed t.spec_owners caller
    then settled none
    else after_update (t.spec_owners ++ new_owner caller ∷ []) update

-- `ensureTenantSpecOwnerOnce`
unfoldable pub ensure_tenant_spec_owner_once : Caller → Attempt → Attempted
unfolding find_dest_tenant subject_listed
ensure_tenant_spec_owner_once caller a =
    on_tenant caller a.update (find_dest_tenant not_found a.tenants)

abbrev pub or_again : Attempted → Attempted → Attempted
or_again (refused conflict) again = again
or_again result again = result

-- The loop of `ensureTenantSpecOwner`, from attempt `i` with `left` more; `last` is the result so far.
unfoldable pub ensure_from : Caller → (ℕ → Attempt) → ℕ → Attempted → ℕ → Attempted
unfolding ensure_tenant_spec_owner_once
ensure_from caller attempts i last zero = last
ensure_from caller attempts i last (suc left) =
    let result = ensure_tenant_spec_owner_once caller (attempts i) in
    or_again result (ensure_from caller attempts (i + 1) result left)

-- `ensureTenantSpecOwner`
unfoldable pub ensure_tenant_spec_owner : Caller → (ℕ → Attempt) → Attempted
unfolding ensure_from
ensure_tenant_spec_owner caller attempts = ensure_from caller attempts 0 (settled none) 4

abbrev listed_in : Caller → Option Configuration → Bool
listed_in caller none = false
listed_in caller (some c) = subject_listed c.status_users caller

abbrev listed_and_known : Caller → Option (List Configuration) → Bool × Bool
listed_and_known caller none = (false, false)
listed_and_known caller (some cs) = (listed_in caller (pick_capsule_configuration cs), true)

-- `capsuleUserListed`
unfoldable pub capsule_user_listed : Caller → List (Read (List Configuration)) → Bool × Bool
unfolding list_capsule_configurations pick_capsule_configuration subject_listed
capsule_user_listed caller answers = listed_and_known caller (list_capsule_configurations answers)

-- The TenantOwners of the destination: what a read by name answers in each version, what the read in
-- the version that is served answers (its `spec.kind` and `spec.name`), and what a create answers.
pub record TenantOwners : Type 0 where
  pub probe : String → List Answer
  pub fetch : String → Read (String × String)
  pub create : String → Answer

-- `tenantOwnerGVR`: `fine` where a version is served.
unfoldable pub tenant_owner_gvr : Answer → List Answer → Answer
unfolding is_no_match
tenant_owner_gvr last [] = last
tenant_owner_gvr last (fine ∷ answers) = fine
tenant_owner_gvr last (not_found ∷ answers) = fine
tenant_owner_gvr last (answer ∷ answers) =
    let rest = tenant_owner_gvr answer answers in if is_no_match answer then rest else answer

abbrev pub no_version : Answer
no_version = failure "tenantowners.capsule.clastix.io not found"

abbrev fetched : Answer → Read (String × String) → Read (String × String)
fetched fine reply = reply
fetched answer reply = no answer

-- `getTenantOwner`
unfoldable pub get_tenant_owner : TenantOwners → String → Read (String × String)
unfolding tenant_owner_gvr
get_tenant_owner owners name =
    fetched (tenant_owner_gvr no_version (owners.probe name)) (owners.fetch name)

-- `tenantOwnerSubject`
abbrev pub tenant_owner_subject : Caller → String × String → Bool
tenant_owner_subject caller (kind, name) = kind == caller.kind && name == caller.name

-- What `pickTenantOwnerName` gives: a name to create, none since the object is there, or an error.
pub data Pick : Type 0 where
  take_name : String → Pick
  in_place : Pick
  unreadable : String → Answer → Pick
  taken : Pick

abbrev on_alternate : Caller → String → Read (String × String) → Pick
on_alternate caller alt (no answer) =
    if is_absent answer then take_name alt else unreadable alt answer
on_alternate caller alt (got subject) =
    if tenant_owner_subject caller subject then in_place else taken

abbrev on_primary :
    Caller → String → String → Read (String × String) → Read (String × String) → Pick
on_primary caller primary alt (no answer) other =
    if is_absent answer then take_name primary else unreadable primary answer
on_primary caller primary alt (got subject) other =
    if tenant_owner_subject caller subject
    then in_place
    else if alt == primary
    then taken
    else on_alternate caller alt other

-- `pickTenantOwnerName`
unfoldable pub pick_tenant_owner_name : TenantOwners → String → String → Caller → Pick
unfolding get_tenant_owner
pick_tenant_owner_name owners primary alt caller =
    on_primary caller primary alt (get_tenant_owner owners primary) (get_tenant_owner owners alt)

-- `strings.TrimRight(s, "-.")`
unfoldable pub trim_marks : String → String
trim_marks String.[] = ""
trim_marks (String.◌∷◌ c s) =
    let rest = trim_marks s in
    if rest == "" && (String.◌∷◌ c "" == "-" || String.◌∷◌ c "" == ".")
    then ""
    else String.◌∷◌ c rest

-- `tenantOwnerName`
unfoldable pub tenant_owner_name : String → String → String
unfolding trim_marks
tenant_owner_name tenant suffix =
    let base = "portage-" <> tenant in
    trim_marks (at_most 253 (if not (suffix == "") then base <> "-" <> suffix else base))

-- What the registration of a caller came to, and the TenantOwner that was created.
pub data Registered : Type 0 where
  registered : Option String → Registered
  not_registered : Answer → Registered
  name_taken : Registered

abbrev after_create : String → Answer → Registered
after_create name fine = registered (some name)
after_create name already_exists = registered none
after_create name answer = not_registered answer

abbrev on_version : TenantOwners → String → Answer → Registered
on_version owners name fine = after_create name (owners.create name)
on_version owners name answer = not_registered answer

abbrev on_pick : TenantOwners → Pick → Registered
on_pick owners (take_name name) =
    if name == ""
    then registered none
    else on_version owners name (tenant_owner_gvr no_version (owners.probe name))
on_pick owners in_place = registered none
on_pick owners (unreadable name answer) = not_registered answer
on_pick owners taken = name_taken

-- `ensureTenantOwner`; `suffix` is `callerSuffix`, four bytes of a hash of the caller.
unfoldable pub ensure_tenant_owner : TenantOwners → (Caller → String) → String → Caller → Registered
unfolding pick_tenant_owner_name tenant_owner_name tenant_owner_gvr
ensure_tenant_owner owners suffix tenant caller = on_pick owners (
    pick_tenant_owner_name owners (tenant_owner_name tenant "")
      (tenant_owner_name tenant (suffix caller)) caller)

abbrev after_owner : Attempted → Registered → Registered
after_owner (settled written) later = later
after_owner (refused answer) later = not_registered answer

-- `ensureCapsuleCaller`, with a client.
unfoldable pub ensure_capsule_caller :
    (ℕ → Attempt)
    → List (Read (List Configuration))
    → TenantOwners
    → (Caller → String)
    → String
    → Caller
    → Registered
unfolding ensure_tenant_spec_owner capsule_user_listed ensure_tenant_owner
ensure_capsule_caller attempts configurations owners suffix tenant caller =
    if tenant == "" || caller.name == ""
    then registered none
    else let (listed, known) = capsule_user_listed caller configurations in
      after_owner (ensure_tenant_spec_owner caller attempts) (
        if known && listed
        then registered none
        else ensure_tenant_owner owners suffix tenant caller)
