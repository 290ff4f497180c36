-- ===== src/Policy/Pass.antt =====
-- internal/controller/policy_controller.go: a whole pass of `Reconcile` over a Policy.
use portage.Base.{
  ℕ, String, ◌==◌, ◌≡◌, refl, Bool, true, false, not, ◌||◌, Option, none, some, List, [], ◌∷◌, All,
  Some, arith, Fallible, ok, err, if◌then◌else◌, inl, inr, sym, ◌∙◌, ◌≢◌,
}
use portage.Api.{Time, Duration, seconds, is_stateless}
use portage.Classify.{Inventory}
use portage.Classify.Catalog.{Engine}
use portage.Classify.Pods.{namespaces}
use portage.Classify.Walk.{Lister, walk}
use portage.Controller.Resume.{is_restore}
use portage.Policy.{
  Policy, PolicyStatus, policy_unhealthy, with_cluster_objects, judge, auto_restore_name,
}
use portage.Policy.Actions.{
  Action, Got, not_found, Write, creates, maybe_auto_restore, maybe_backup, maybe_replicate,
  replica_lag,
}
use portage.Policy.Verdict.{HasCopy, judge-IsVerdict}
use portage.Policy.Restored.{LostClaim, maybe_auto_restore_iff}

-- What the pass reads: the catalog of engines and the source cluster, the claims of the destination, the Actions (with the
-- read of the relabel attempt and the message of the live replica), whether the status could be
-- written, the clock, and `time.ParseDuration`.
pub record Answers : Type 0 where
  pub connected : Bool
  pub engines : List Engine
  pub source : Lister
  pub claim : String → String → Got (Unit {0})
  pub read : String → Got Action
  pub latest : String → Got Action
  pub lag : String → Got String
  pub status_error : Option String
  pub now : Time
  pub parse : String → Fallible Duration

-- What the pass writes: a status, where it writes one; what it asks for the Actions, in order; the
-- lag, where it is new; and after how long the next pass is due.
pub record Outcome : Type 0 where
  pub status : Option PolicyStatus
  pub writes : List Write
  pub lag : Option String
  pub requeue : Duration

-- `retryLater`
abbrev pub retry_later : Option PolicyStatus → Outcome
retry_later status = record { status = status; writes = []; lag = none; requeue = seconds 10 }

abbrev new_lag : String → String → Option String
new_lag lag old = if lag == "" || lag == old then none else some lag

-- The part of the pass after the write of the status.
abbrev act : Answers → Policy → PolicyStatus → Inventory → Outcome
act a pol status inv = record {
  status = some status;
  writes =
      maybe_auto_restore pol status.backup_healthy inv a.claim a.read
      ∷ maybe_backup a.parse pol a.now a.read
      ∷ maybe_replicate pol a.read a.latest
      ∷ [];
  lag = new_lag (replica_lag pol a.lag) status.replica_lag;
  requeue = if pol.replicate_enabled then seconds 30 else seconds 120;
}

abbrev act_if : Answers → Policy → PolicyStatus → Inventory → Option String → Outcome
act_if a pol status inv none = act a pol status inv
act_if a pol status inv (some e) = retry_later none

abbrev on_walk : Answers → Policy → ℕ → PolicyStatus → Fallible Inventory → Outcome
on_walk a pol generation status (err e) =
    retry_later (some (record status { phase = policy_unhealthy; message = e }))
on_walk a pol generation status (ok inv) =
    let inv' = with_cluster_objects pol inv in
    act_if a pol (judge generation status inv') inv' a.status_error

-- `Reconcile` of a Policy that is there.
unfoldable pub reconcile : Answers → Policy → ℕ → PolicyStatus → Outcome
unfolding judge with_cluster_objects maybe_auto_restore maybe_backup maybe_replicate replica_lag
reconcile a pol generation status =
    if not a.connected
    then retry_later none
    else on_walk a pol generation status
        (walk a.engines a.source (namespaces pol.namespaces pol.namespace))

maybe_backup-is_restore :
    (parse : String → Fallible Duration) (pol : Policy) (now : Time) (read : String → Got Action)
    (act : Action)
    → maybe_backup parse pol now read ≡ creates act
    → is_restore act.type ≡ false
unfolding maybe_backup
maybe_backup-is_restore parse pol now read act e = ground arith

maybe_replicate-is_restore :
    (pol : Policy) (read latest : String → Got Action) (act : Action)
    → maybe_replicate pol read latest ≡ creates act
    → is_restore act.type ≡ false
unfolding maybe_replicate
maybe_replicate-is_restore pol read latest act e = ground arith

true_ne_false : true ≢ false
true_ne_false e = cc

-- What a pass that starts a Restore has found: all backups useful, and a claim lost.
abbrev pub IsCalledFor : Answers → Policy → PolicyStatus → Inventory → Type 0
IsCalledFor a pol status inv =
    (pol.restore_auto ≡ true)
    × All (HasCopy status.artifacts) inv.workloads
    × Some (λ w. (is_stateless w.class ≡ false) × LostClaim a.claim w) inv.workloads
    × (a.read (auto_restore_name pol.name) ≡ not_found)

module _ (a : Answers) (pol : Policy) (generation : ℕ) (status : PolicyStatus) (act' : Action) where
  abbrev Starts : Outcome → Type 0
  Starts o = Some (λ w. w ≡ creates act') o.writes

  act-IsCalledFor :
      (inv : Inventory)
      → is_restore act'.type ≡ true
      → Starts (act a pol (judge generation status inv) inv)
      → IsCalledFor a pol status inv
  act-IsCalledFor inv type (inl first) =
      let called =
        (maybe_auto_restore_iff pol (judge generation status inv).backup_healthy inv a.claim a.read
            act').0
          first in
      (called.0, (judge-IsVerdict generation status inv).0.0 called.1, called.2, called.3)
  act-IsCalledFor inv type (inr (inl second)) =
      absurd
        (true_ne_false (sym type ∙ maybe_backup-is_restore a.parse pol a.now a.read act' second))
  act-IsCalledFor inv type (inr (inr (inl third))) =
      absurd (true_ne_false (sym type ∙ maybe_replicate-is_restore pol a.read a.latest act' third))
  act-IsCalledFor inv type (inr (inr (inr h))) = absurd h

  act_if-IsCalledFor :
      (inv : Inventory) (failed : Option String)
      → is_restore act'.type ≡ true
      → Starts (act_if a pol (judge generation status inv) inv failed)
      → IsCalledFor a pol status inv
  act_if-IsCalledFor inv none type h = act-IsCalledFor inv type h
  act_if-IsCalledFor inv (some e) type h = absurd h

  on_walk-IsCalledFor :
      (on : Bool) (walked : Fallible Inventory)
      → is_restore act'.type ≡ true
      → Starts (if not on then retry_later none else on_walk a pol generation status walked)
      → (inv : Inventory) × (walked ≡ ok inv)
        × IsCalledFor a pol status (with_cluster_objects pol inv)
  on_walk-IsCalledFor false walked type h = absurd h
  on_walk-IsCalledFor true (err e) type h = absurd h
  on_walk-IsCalledFor true (ok inv) type h =
      (inv, refl, act_if-IsCalledFor (with_cluster_objects pol inv) a.status_error type h)

  -- A pass that creates a Restore Action was asked to restore by itself, has walked the source cluster,
  -- found a useful last artifact for every workload that keeps state, and a claim of such a workload
  -- gone from the destination; and no Action was there under the reserved name.
  pub reconcile-IsCalledFor :
      is_restore act'.type ≡ true
      → Some (λ w. w ≡ creates act') (reconcile a pol generation status).writes
      → (inv : Inventory) × (walk a.engines a.source (namespaces pol.namespaces pol.namespace)
          ≡ ok inv)
        × IsCalledFor a pol status (with_cluster_objects pol inv)
  unfolding reconcile
  reconcile-IsCalledFor = on_walk-IsCalledFor a.connected _
