-- ===== src/Controller/Dispatch/Honest.antt =====
-- What a reconcile that writes phase Succeeded stands on.
use portage.Base.{
  String, ◌==◌, ◌≡◌, ◌≢◌, refl, ◌&&◌, ◌⊎◌, inl, inr, [], ◌∷◌, ◌++◌, any, Bool-cases, Bool, true,
  false, not, Option, none, some, All, arith, if◌then◌else◌, Fallible, ok, err,
}
use portage.Api.{ActionStatus, Duration, ActionPhase, succeeded, pending, unset}
use portage.Classify.{Inventory}
use portage.Restore.{Result}
use portage.Restore.Success.{IsProven}
use portage.Cutover.Success.{IsAttested, advance-IsAttested}
use portage.Policy.{Policy, first_or, synthetic, with_cluster_objects}
use portage.Controller.Frozen.{is_object_graph}
use portage.Policy.Verdict.{HasCopy}
use portage.Controller.Resume.{
  ActionType, backup, restore, replicate, cutover, other_type, enter, is_replicate,
}
use portage.Controller.Failover.{run_cutover, facts_of}
use portage.Controller.BackupRun.{artifacts}
use portage.Controller.BackupRun.Judged.{IsJudgedBy, run_backup-IsJudgedBy}
use portage.Controller.RestoreRun.Whole.{IsWhole, run_restore-IsWhole}
use portage.Controller.Replicate.{run_replicate, Step, conclude, replicate_requeue, replicate_all}
use portage.Controller.Status.{write_back}
use portage.Classify.Pods.{namespaces}
use portage.Controller.Dispatch
use portage.Controller.Dispatch.{
  Asked, Pair, World, Ended, leaves, retries, fails, panics, finishes, after_run, some_result,
  run_of, ran, on_walk, on_endpoints, on_pair, on_pending, on_policy, on_entered, reconcile,
  is_dest_lost, is_unset, dest_of,
}

module _ (act : Asked) (world : World) (live : act.dry_run ≡ false) where
  -- What a success of each type stands on: useful artifacts of all workloads with state, a proven list of
  -- workloads, or attested ones. A live replica has no success.
  abbrev pub IsEarned : ActionType → ActionStatus → Inventory → Result → Type 0
  IsEarned backup status inv r =
      All (HasCopy (artifacts world.movers world.overrides world.on_backup inv)) inv.workloads
  IsEarned restore status inv r = IsProven world.on_restore.now r
  IsEarned cutover status inv r =
      IsAttested
        (facts_of world.movers world.overrides world.on_cutover status.phase act.dry_run
          act.rollback inv)
        r
  IsEarned replicate status inv r = ⊥
  IsEarned (other_type name) status inv r = ⊥

  -- A run that gives phase Succeeded earned it, and no run panics.
  abbrev pub IsSound : ActionType → ActionStatus → Inventory → Fallible (Option Result) → Type 0
  IsSound type status inv (err e) = Unit
  IsSound type status inv (ok none) = ⊥
  IsSound type status inv (ok (some r)) = r.phase ≡ succeeded → IsEarned type status inv r

  backup-IsSound :
      (status : ActionStatus) (inv : Inventory) (write : Option String) (r : Fallible Result)
      → IsJudgedBy world.movers world.overrides world.on_backup inv write r
      → IsSound backup status inv (some_result act world r)
  backup-IsSound status inv (some e) (err f) h = tt
  backup-IsSound status inv none (ok r) h = λ won. (h.won.0 won).1
  backup-IsSound status inv (some e) (ok r) h = absurd h
  backup-IsSound status inv none (err f) h = absurd h

  restore-IsSound :
      (status : ActionStatus) (inv : Inventory) (r : Fallible (Option Result))
      → IsWhole world.engines world.movers world.overrides world.on_restore status act.dry_run inv r
      → IsSound restore status inv r
  restore-IsSound status inv (err e) h = tt
  restore-IsSound status inv (ok none) h = h
  restore-IsSound status inv (ok (some r)) h = λ won. (h won).0

  conclude-ne-succeeded :
      (requeue : Duration) (step : Step)
      → (conclude world.movers world.overrides world.on_replicate false requeue step).phase
        ≢ succeeded
  conclude-ne-succeeded requeue step = ground arith

  replicate-ne-succeeded :
      (inv : Inventory) (dry_run : Bool)
      → dry_run ≡ false
      → (run_replicate world.movers world.overrides world.on_replicate dry_run world.rpo inv).phase
        ≢ succeeded
  unfolding run_replicate
  replicate-ne-succeeded inv true h = ground (arith, h)
  replicate-ne-succeeded inv false h =
      conclude-ne-succeeded (replicate_requeue world.on_replicate.parse world.rpo)
        (replicate_all world.movers world.overrides world.on_replicate inv.workloads)

  -- What the second `switch` gives is sound, for a status that is not a success.
  abbrev AreSound :
      ActionType → ActionStatus → Inventory → Option (Fallible (Option Result)) → Type 0
  AreSound type status inv none = Unit
  AreSound type status inv (some r) = IsSound type status inv r

  run_of-AreSound :
      (type : ActionType) (status : ActionStatus) (inv : Inventory)
      → (is_replicate type ≡ false → status.phase ≢ succeeded)
      → AreSound type status inv (run_of act world type status inv)
  unfolding run_cutover
  run_of-AreSound backup status inv fresh =
      backup-IsSound status inv world.on_backup.write_error _
        (run_backup-IsJudgedBy world.movers world.overrides world.on_backup inv)
  run_of-AreSound restore status inv fresh = restore-IsSound status inv _ (
      run_restore-IsWhole world.engines world.movers world.overrides world.on_restore status
        act.dry_run inv world.artifacts act.applied (fresh refl) live)
  run_of-AreSound replicate status inv fresh = replicate-ne-succeeded inv act.dry_run live
  run_of-AreSound cutover status inv fresh =
      advance-IsAttested status
        (facts_of world.movers world.overrides world.on_cutover status.phase act.dry_run
          act.rollback inv)
        (fresh refl) live
  run_of-AreSound (other_type name) status inv fresh = tt

  -- The inventory is what the walk of the Policy's namespaces gave, with the row of the object graph at
  -- its end if the Policy copies objects and the walk has no such row.
  pub record IsWalked (inv : Inventory) : Type 0 where
    pub pol : Policy
    pub walked : Inventory
    pub namespace : String
    pub policy : world.policy ≡ ok pol
    pub walk : world.walk (namespaces pol.namespaces pol.namespace) ≡ ok walked
    pub rows :
        ((pol.objects_enabled && not (any is_object_graph walked.workloads)) ≡ false
          × (inv.workloads ≡ walked.workloads))
        ⊎ ((pol.objects_enabled && not (any is_object_graph walked.workloads)) ≡ true
            × (inv.workloads ≡ walked.workloads ++ synthetic namespace ∷ []))

  -- The status that the run starts from: the one that the Action enters with, of phase Pending if it
  -- had no phase.
  abbrev pub IsEntered : ActionStatus → ActionStatus → Type 0
  IsEntered before status =
      (enter act.type act.dry_run before ≡ some status)
      ⊎ ((entered : ActionStatus) × ((enter act.type act.dry_run before ≡ some entered)
            × ((entered.phase ≡ unset)
                × (status ≡ record entered { phase = pending; message = "pending" }))))

  -- What is written is what the run of the type gave on that inventory, and a success is earned; there
  -- is no panic.
  pub record IsReported (before : ActionStatus) (inv : Inventory) (r : Result)
      (written : ActionStatus) : Type 0 where
    pub status : ActionStatus
    pub walked : IsWalked inv
    pub entered : IsEntered before status
    pub ran : run_of act world act.type status inv ≡ some (ok (some r))
    pub phase : written.phase ≡ r.phase
    pub workloads : written.workloads ≡ r.workloads
    pub earned : written.phase ≡ succeeded → IsEarned act.type status inv r

  abbrev pub IsHonest : ActionStatus → Ended → Type 0
  IsHonest before (finishes inv r written delay) = IsReported before inv r written
  IsHonest before panics = ⊥
  IsHonest before _ = Unit

  if-IsHonest :
      (before : ActionStatus) (b : Bool) (x y : Ended)
      → IsHonest before x
      → IsHonest before y
      → IsHonest before (if b then x else y)
  if-IsHonest before true x y h k = h
  if-IsHonest before false x y h k = k

  with_cluster_objects-rows :
      (pol : Policy) (walked : Inventory)
      → world.policy ≡ ok pol
      → world.walk (namespaces pol.namespaces pol.namespace) ≡ ok walked
      → IsWalked (with_cluster_objects pol walked)
  unfolding with_cluster_objects
  with_cluster_objects-rows pol walked h k = record {
    pol = pol;
    walked = walked;
    namespace = if pol.namespace == "" then first_or "" pol.namespaces else pol.namespace;
    policy = h;
    walk = k;
    rows = ground arith;
  }

  module _ (before status : ActionStatus) (entered : IsEntered before status)
      (fresh : is_replicate act.type ≡ false → status.phase ≢ succeeded) where
    after_write-IsHonest :
        (inv : Inventory) (r : Result) (written : ActionStatus) (write : Option String)
        → IsReported before inv r written
        → IsHonest before (Dispatch.after_write inv r written write)
    after_write-IsHonest inv r written (some e) h = tt
    after_write-IsHonest inv r written none h = h

    after_run-IsHonest :
        (inv : Inventory) (pair : Option Pair) (r : Fallible (Option Result))
        → IsWalked inv
        → run_of act world act.type status inv ≡ some r
        → IsSound act.type status inv r
        → IsHonest before (after_run act world inv pair status r)
    unfolding write_back
    after_run-IsHonest inv pair (err e) walked ran h = tt
    after_run-IsHonest inv pair (ok none) walked ran h = h
    after_run-IsHonest inv pair (ok (some r)) walked ran h =
        after_write-IsHonest inv r (write_back (dest_of pair) status r) world.write_error (record {
          status = status;
          walked = walked;
          entered = entered;
          ran = ran;
          phase = refl;
          workloads = refl;
          earned = h;
        })

    ran-IsHonest :
        (inv : Inventory) (pair : Option Pair) (r : Option (Fallible (Option Result)))
        → IsWalked inv
        → run_of act world act.type status inv ≡ r
        → AreSound act.type status inv r
        → IsHonest before (ran act world inv pair status r)
    ran-IsHonest inv pair none walked ran h = tt
    ran-IsHonest inv pair (some r) walked ran h = after_run-IsHonest inv pair r walked ran h

    on_walk-IsHonest :
        (pol : Policy) (pair : Option Pair) (walked : Fallible Inventory)
        → world.policy ≡ ok pol
        → world.walk (namespaces pol.namespaces pol.namespace) ≡ walked
        → IsHonest before (on_walk act world pol pair status walked)
    on_walk-IsHonest pol pair (err e) named seen = tt
    on_walk-IsHonest pol pair (ok walked) named seen =
        let inv = with_cluster_objects pol walked in
        ran-IsHonest inv pair (run_of act world act.type status inv)
          (with_cluster_objects-rows pol walked named seen) refl
          (run_of-AreSound act.type status inv fresh)

    on_endpoints-IsHonest :
        (pol : Policy) (pair : Option Pair) (e : Option String)
        → world.policy ≡ ok pol
        → IsHonest before (on_endpoints act world pol pair status e)
    on_endpoints-IsHonest pol pair (some e) named = tt
    on_endpoints-IsHonest pol pair none named =
        if-IsHonest before (is_dest_lost act world pair) _ _ tt (
          on_walk-IsHonest pol pair (world.walk (namespaces pol.namespaces pol.namespace)) named
            refl)

    on_pair-IsHonest :
        (pol : Policy) (pair : Fallible (Option Pair))
        → world.policy ≡ ok pol
        → IsHonest before (on_pair act world pol status pair)
    on_pair-IsHonest pol (err e) named = tt
    on_pair-IsHonest pol (ok pair) named =
        on_endpoints-IsHonest pol pair world.endpoints_error named

  is_unset-eq : (phase : ActionPhase) → is_unset act world phase ≡ true → phase ≡ unset
  is_unset-eq unset h = refl
  is_unset-eq _ h = ground (arith, h)

  module _ (before status : ActionStatus)
      (entered : enter act.type act.dry_run before ≡ some status)
      (fresh : is_replicate act.type ≡ false → status.phase ≢ succeeded) where
    on_pending-IsHonest :
        (pol : Policy) (e : Option String)
        → world.policy ≡ ok pol
        → status.phase ≡ unset
        → IsHonest before (on_pending act world pol status e)
    on_pending-IsHonest pol (some e) named new = tt
    on_pending-IsHonest pol none named new =
        on_pair-IsHonest before (record status { phase = pending; message = "pending" })
          (inr (status, (entered, (new, refl)))) (λ k h. ground (arith, h)) pol world.pair named

    on_policy-IsHonest :
        (pol : Fallible Policy)
        → world.policy ≡ pol
        → IsHonest before (on_policy act world status pol)
    on_policy-IsHonest (err e) named = tt
    on_policy-IsHonest (ok pol) named = elim (Bool-cases (is_unset act world status.phase)) [
      | inl new ↦
          rw new (on_pending-IsHonest pol world.pending_error named (is_unset-eq status.phase new))
      | inr old ↦ rw old (on_pair-IsHonest before status (inl entered) fresh pol world.pair named)
    ]

  enter-fresh :
      (type : ActionType) (status entered : ActionStatus)
      → enter type act.dry_run status ≡ some entered
      → is_replicate type ≡ false
      → entered.phase ≢ succeeded
  unfolding enter
  enter-fresh type status entered eq other won = ground (arith, eq, other, won)

  on_entered-IsHonest :
      (before : ActionStatus) (o : Option ActionStatus)
      → enter act.type act.dry_run before ≡ o
      → ((entered : ActionStatus)
          → o ≡ some entered
          → is_replicate act.type ≡ false
          → entered.phase ≢ succeeded)
      → IsHonest before (on_entered act world o)
  on_entered-IsHonest before none enters fresh = tt
  on_entered-IsHonest before (some status) enters fresh =
      if-IsHonest before (not world.has_kube) _ _ tt (
        if-IsHonest before (act.policy_ref == "") _ _ tt
          (on_policy-IsHonest before status enters (fresh status refl) world.policy refl))

  -- A reconcile of an Action that is no dry run never panics. Where it writes the result of a run, this
  -- is the run of the Action's type on the inventory that the walk of the Policy's namespaces gave,
  -- with the row of the object graph if the Policy copies objects and the walk has none, from the status
  -- that the Action entered with, and the written phase and workloads are those of the result. Phase
  -- Succeeded is written only for a Backup with a useful artifact of every workload with state of that
  -- inventory, for a Restore with a proven list of workloads, or for a Cutover with an attested one;
  -- never for a Replicate or another type.
  pub reconcile-IsHonest : (status : ActionStatus) → IsHonest status (reconcile act world status)
  unfolding reconcile
  reconcile-IsHonest status =
      on_entered-IsHonest status (enter act.type act.dry_run status) refl
        (enter-fresh act.type status)
