-- ===== src/Policy/Actions.antt =====
-- internal/controller/policy_controller.go: the Actions that a pass creates, relabels or deletes:
-- maybeAutoRestore, maybeBackup and maybeReplicate. The answers of the API server are arguments,
-- and a pass gives the one write that it asks for.
use portage.Base.{
  String, ◌==◌, Bool, true, false, not, ◌||◌, List, [], ◌∷◌, if◌then◌else◌, Map, get, insert, any,
  Fallible, ok, err, i64_le,
}
use portage.Api.{Time, Duration}
use portage.Classify.{Workload, Inventory, stateful}
use portage.Controller.Resume.{ActionType, backup, restore, replicate, is_replicate}
use portage.Policy.{Policy, rpo_backup_name, replicate_name, auto_restore_name}

-- The Action as the API server stores it; the Policy and all its Actions are of one namespace.
pub record Action : Type 0 where
  pub name : String
  pub labels : Map String
  pub type : ActionType
  pub policy_ref : String

-- The answer to a `Get`.
pub data Got {ℓ} (A : Type ℓ) : Type ℓ where
  found : A → Got A
  not_found : Got A
  refused : String → Got A

-- What a pass asks of the API server: nothing, or one write, or it ends with an error.
pub data Write : Type 0 where
  nothing : Write
  fails : String → Write
  creates : Action → Write
  updates : Action → Write
  deletes : String → Write

abbrev pub when_absent : Action → Got Action → Write
when_absent act (found a) = nothing
when_absent act not_found = creates act
when_absent act (refused e) = fails e

abbrev pub backup_action : Policy → String → Action
backup_action pol name = record {
  name = name;
  labels = ("portage.io/rpo", "true") ∷ ("portage.io/policy", pol.name) ∷ [];
  type = backup;
  policy_ref = pol.name;
}

abbrev pub every : Policy → Time → (String → Got Action) → Fallible Duration → Write
every pol now read (err e) = nothing
every pol now read (ok d) =
    if i64_le d 0
    then nothing
    else let name = rpo_backup_name pol.name now d in
      when_absent (backup_action pol name) (read name)

-- `maybeBackup`; `parse` is `time.ParseDuration`, whose int64 is a bit pattern.
unfoldable pub maybe_backup :
    (String → Fallible Duration) → Policy → Time → (String → Got Action) → Write
unfolding rpo_backup_name
maybe_backup parse pol now read =
    if not pol.backup_enabled || pol.backup_rpo == ""
    then nothing
    else every pol now read (parse pol.backup_rpo)

abbrev pub live_label : String
live_label = "portage.io/live-replica"

abbrev pub replicate_action : Policy → Action
replicate_action pol = record {
  name = replicate_name pol.name;
  labels =
      ("portage.io/replicate", "true")
      ∷ (live_label, "true")
      ∷ ("portage.io/policy", pol.name)
      ∷ [];
  type = replicate;
  policy_ref = pol.name;
}

-- One attempt of the update that sets the label, with what its own `Get` answers.
abbrev pub relabel : Got Action → Write
relabel (refused e) = fails e
relabel not_found = fails "not found"
relabel (found a) =
    if get "" live_label a.labels == "true"
    then nothing
    else updates (record a { labels = insert live_label "true" a.labels })

abbrev pub stop_replica : Got Action → Write
stop_replica not_found = nothing
stop_replica (refused e) = fails e
stop_replica (found a) = if not (is_replicate a.type) then nothing else deletes a.name

abbrev pub keep_replica : Policy → Got Action → Got Action → Write
keep_replica pol latest not_found = creates (replicate_action pol)
keep_replica pol latest (refused e) = fails e
keep_replica pol latest (found a) =
    if not (is_replicate a.type)
    then nothing
    else if not (get "" live_label a.labels == "true")
    then relabel latest
    else nothing

-- `maybeReplicate`: `read` answers the first `Get`, `latest` that of the attempt to relabel.
unfoldable pub maybe_replicate : Policy → (String → Got Action) → (String → Got Action) → Write
unfolding get insert replicate_name
maybe_replicate pol read latest =
    let name = replicate_name pol.name in
    if not pol.replicate_enabled
    then stop_replica (read name)
    else keep_replica pol (latest name) (read name)

abbrev pub is_gone {ℓ} : {A : Type ℓ} → Got A → Bool
is_gone not_found = true
is_gone _ = false

-- The loop over the claims: is one of a stateful workload gone?
unfoldable pub needs_restore : (String → String → Got (Unit {0})) → List Workload → Bool
needs_restore claim ws = any (λ w. any (λ pvc. is_gone (claim w.namespace pvc)) w.pvc_names) ws

abbrev pub auto_action : Policy → Action
auto_action pol = record {
  name = auto_restore_name pol.name;
  labels = ("portage.io/auto", "true") ∷ ("portage.io/policy", pol.name) ∷ [];
  type = restore;
  policy_ref = pol.name;
}

-- `maybeAutoRestore`; `claim` is the `Get` of a claim on the destination.
unfoldable pub maybe_auto_restore :
    Policy → Bool → Inventory → (String → String → Got (Unit {0})) → (String → Got Action) → Write
unfolding needs_restore stateful auto_restore_name
maybe_auto_restore pol backup_healthy inv claim read =
    if not pol.restore_auto
    then nothing
    else if not backup_healthy
    then nothing
    else if not (needs_restore claim (stateful inv))
    then nothing
    else when_absent (auto_action pol) (read (auto_restore_name pol.name))

-- `replicaLag`; `read` gives the message of the status of an Action.
unfoldable pub replica_lag : Policy → (String → Got String) → String
replica_lag pol read =
    if not pol.replicate_enabled then "" else message (read (replicate_name pol.name))
  where
    message : Got String → String
    message (found m) = m
    message _ = ""
