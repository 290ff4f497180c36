-- ===== src/Controller/Dispatch.antt =====
-- internal/controller/action_controller.go: `Reconcile` of an Action, from its gates over the run of its
-- type to the write of its status.
pub mod Honest
mod Tests
use portage.Base.{
  ℕ, String, ◌<>◌, ◌==◌, Bool, true, false, not, ◌||◌, Option, none, some, List, if◌then◌else◌,
  Fallible, ok, err, nat_beq,
}
use portage.Api.{ActionStatus, ActionPhase, ArtifactHealth, Duration, unset, pending}
use portage.Classify.Catalog.{Engine}
use portage.Classify.Pods.{namespaces}
use portage.Classify.{Inventory}
use portage.Movers.{Registry}
use portage.Restore.{Result}
use portage.Policy.{Policy, with_cluster_objects}
use portage.Controller.Resume.{ActionType, backup, restore, replicate, cutover, other_type, enter}
use portage.Controller.Status.{write_back}
use portage.Controller.Failover.{Overrides, run_cutover}
use portage.Controller.BackupRun.{run_backup}
use portage.Controller.RestoreRun.Pass.{run_restore}
use portage.Controller.Replicate.{run_replicate}

-- The Action: its spec, and the annotation that tells which dumps were applied.
pub record Asked : Type 0 where
  pub type : ActionType
  pub dry_run : Bool
  pub rollback : Bool
  pub policy_ref : String
  pub applied : String

-- The ClusterPair, where there is one: the name of the destination, and whether it has credentials.
pub record Pair : Type 0 where
  pub dest_name : String
  pub has_remote_auth : Bool

-- What the reconcile reads and meets. A `Bool` tells whether there is a client; the errors are those
-- of the write of phase Pending, of `endpoints` and of the last `writeStatus`.
pub record World : Type 0 where
  pub has_kube : Bool
  pub policy : Fallible Policy
  pub artifacts : List ArtifactHealth
  pub rpo : String
  pub pending_error : Option String
  pub pair : Fallible (Option Pair)
  pub endpoints_error : Option String
  pub has_dest_kube : Bool
  pub walk : List String → Fallible Inventory
  pub write_error : Option String
  pub engines : List Engine
  pub movers : Registry
  pub overrides : Overrides
  pub on_backup : portage.Controller.BackupRun.Answers
  pub on_restore : portage.Controller.RestoreRun.Answers
  pub on_replicate : portage.Controller.Replicate.Answers
  pub on_cutover : portage.Controller.Failover.Answers

-- How a reconcile ends: it leaves the Action, comes back after an error, writes Failed with a message,
-- panics, or writes the status that a result of the walked inventory gives, to come back after a
-- delay (0 for never).
pub data Ended : Type 0 where
  leaves : Ended
  retries : String → Ended
  fails : String → Ended
  panics : Ended
  finishes : Inventory → Result → ActionStatus → Duration → Ended

abbrev pub requeue_of : Result → Duration
requeue_of r = if r.terminal || nat_beq r.requeue_after 0 then 0 else r.requeue_after

abbrev dest_of : Option Pair → Option String
dest_of none = none
dest_of (some p) = some p.dest_name

abbrev pub after_write : Inventory → Result → ActionStatus → Option String → Ended
after_write inv r status (some e) = retries e
after_write inv r status none = finishes inv r status (requeue_of r)

abbrev pub type_text : ActionType → String
type_text (other_type name) = name
type_text _ = ""

module _ (act : Asked) (world : World) where
  abbrev pub after_run : Inventory → Option Pair → ActionStatus → Fallible (Option Result) → Ended
  after_run inv pair status (err e) = retries e
  after_run inv pair status (ok none) = panics
  after_run inv pair status (ok (some r)) =
      after_write inv r (write_back (dest_of pair) status r) world.write_error

  abbrev pub some_result : Fallible Result → Fallible (Option Result)
  some_result (err e) = err e
  some_result (ok r) = ok (some r)

  -- The second `switch`: `none` for a type that is not supported.
  abbrev pub run_of : ActionType → ActionStatus → Inventory → Option (Fallible (Option Result))
  run_of backup status inv =
      some (some_result (run_backup world.movers world.overrides world.on_backup inv))
  run_of restore status inv = some (
      run_restore world.engines world.movers world.overrides world.on_restore status act.dry_run
        world.artifacts act.applied inv)
  run_of replicate status inv = some (
      ok (
        some (
          run_replicate world.movers world.overrides world.on_replicate act.dry_run world.rpo inv)))
  run_of cutover status inv = some (
      ok (
        some (
          (run_cutover world.movers world.overrides world.on_cutover status act.dry_run act.rollback
            inv).0)))
  run_of (other_type name) status inv = none

  abbrev pub ran :
      Inventory → Option Pair → ActionStatus → Option (Fallible (Option Result)) → Ended
  ran inv pair status none = fails ("unsupported action type " <> type_text act.type)
  ran inv pair status (some r) = after_run inv pair status r

  abbrev pub on_walk : Policy → Option Pair → ActionStatus → Fallible Inventory → Ended
  on_walk pol pair status (err e) = retries ("classify: " <> e)
  on_walk pol pair status (ok walked) =
      let inv = with_cluster_objects pol walked in ran inv pair status (run_of act.type status inv)

  abbrev pub is_dest_lost : Option Pair → Bool
  is_dest_lost none = false
  is_dest_lost (some p) = if world.has_dest_kube then false else p.has_remote_auth

  abbrev pub on_endpoints : Policy → Option Pair → ActionStatus → Option String → Ended
  on_endpoints pol pair status (some e) = retries ("resolve ClusterPair: " <> e)
  on_endpoints pol pair status none =
      if is_dest_lost pair
      then retries "destination cluster client is empty"
      else on_walk pol pair status (world.walk (namespaces pol.namespaces pol.namespace))

  abbrev pub on_pair : Policy → ActionStatus → Fallible (Option Pair) → Ended
  on_pair pol status (err e) = fails e
  on_pair pol status (ok pair) = on_endpoints pol pair status world.endpoints_error

  abbrev pub on_pending : Policy → ActionStatus → Option String → Ended
  on_pending pol status (some e) = retries ("mark action pending: " <> e)
  on_pending pol status none =
      on_pair pol (record status { phase = pending; message = "pending" }) world.pair

  abbrev pub is_unset : ActionPhase → Bool
  is_unset unset = true
  is_unset _ = false

  abbrev pub on_policy : ActionStatus → Fallible Policy → Ended
  on_policy status (err e) = fails ("policy: " <> e)
  on_policy status (ok pol) =
      if is_unset status.phase
      then on_pending pol status world.pending_error
      else on_pair pol status world.pair

  abbrev pub on_entered : Option ActionStatus → Ended
  on_entered none = leaves
  on_entered (some status) =
      if not world.has_kube
      then retries "kube client is not configured"
      else if act.policy_ref == ""
      then fails "spec.policyRef is required"
      else on_policy status world.policy

  -- `Reconcile`, of an Action that was read.
  unfoldable pub reconcile : ActionStatus → Ended
  unfolding enter namespaces run_backup run_restore run_replicate run_cutover with_cluster_objects
      write_back
  reconcile status = on_entered (enter act.type act.dry_run status)
