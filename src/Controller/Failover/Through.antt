-- ===== src/Controller/Failover/Through.antt =====
-- internal/controller/action_controller.go: a cutover, over the reconciles of its Action.
use mathlib.Core.Path.{subst}
use portage.Base.{
  ℕ, zero, suc, String, ◌≡◌, refl, ap, sym, ◌∙◌, true, false, List, [], ◌∷◌, All, All-imp, keep,
  Option, Map, lookup, get, some, inr,
}
use portage.Api.{ActionPhase, ActionStatus, quiescing, catching_up, promoting, switching, succeeded}
use portage.Classify.{Workload, Inventory, key, stateful, holds_state}
use portage.Movers.{Registry}
use portage.Controller.Status.{write_back}
use portage.Controller.Frozen.{IsFrozen, frozen_iff}
use portage.Controller.Failover.{
  Overrides, Answers, gather, gather_from, Gathered, facts_of, run_cutover,
}
use portage.Controller.Failover.Guarded.{IsCaughtUp, IsPromoted}
use portage.Controller.Failover.Flags.{IsUp, lag_zero-all, promoted-all, gather_from-AreNoted}
use portage.Cutover.{Facts}
use portage.Cutover.Live.{IsSeen, IsLive, IsWanted}
use portage.Cutover.Progress.{is_late, is_lost, steps_left, proceed, progress}

keep-all : (ws : List Workload) → All (λ w. holds_state w ≡ true) ws → keep holds_state ws ≡ ws
keep-all [] _ = refl
keep-all (w ∷ ws) (here, rest) = rw here (ap (λ xs. w ∷ xs) (keep-all ws rest))

get-lookup : (k : String) (m : Map _) → lookup k m ≡ some true → get false k m ≡ true
unfolding get
get-lookup k m h = rw h refl

module _ (movers : Registry) (overrides : Overrides) (world : ActionPhase → Answers)
    (inv : Inventory) where
  -- The status after some reconciles, each of which finds the clusters as `world` says for the phase
  -- that it finds the Action in.
  unfoldable pub reconciles : Option String → ℕ → ActionStatus → ActionStatus
  unfolding write_back run_cutover
  reconciles dest zero status = status
  reconciles dest (suc n) status = reconciles dest n (
      write_back dest status
        (run_cutover movers overrides (world status.phase) status false false inv).0)

  abbrev pub facts : ActionPhase → Facts
  facts phase = facts_of movers overrides (world phase) phase false false inv

module _ (movers : Registry) (overrides : Overrides) (world : ActionPhase → Answers)
    (namespaces : List String) (w : Workload) (ws : List Workload) where
  abbrev pub inventory : Inventory
  inventory = record { namespaces = namespaces; workloads = w ∷ ws }

  abbrev start : Gathered
  start = record { ready = []; probes = []; lag_zero = true; promoted = true; effects = [] }

  gather-all :
      (phase : ActionPhase)
      → All (λ w. holds_state w ≡ true) (w ∷ ws)
      → gather movers overrides (world phase) phase inventory
        ≡ gather_from movers overrides (world phase) phase (w ∷ ws) start
  unfolding gather stateful
  gather-all phase h =
      ap (λ xs. gather_from movers overrides (world phase) phase xs start) (keep-all (w ∷ ws) h)

  seen : (phase : ActionPhase) → IsSeen w ws (facts movers overrides world inventory phase)
  unfolding facts_of
  seen phase = record {
    ready = (gather movers overrides (world phase) phase inventory).ready;
    probes = (gather movers overrides (world phase) phase inventory).probes;
    inventory = refl;
    seen_ready = refl;
    seen_probes = refl;
    real = refl;
    kept = refl;
  }

  live :
      (phase : ActionPhase)
      → All (λ w. holds_state w ≡ true) (w ∷ ws)
      → All (IsUp movers overrides (world phase)) (w ∷ ws)
      → All (IsLive (seen phase).ready (seen phase).probes) (w ∷ ws)
  unfolding seen
  live phase state up =
      subst (λ (g : Gathered). All (IsLive g.ready g.probes) (w ∷ ws))
        (sym (gather-all phase state))
        (All-imp _ _
          (λ v (ready, fine). record { up = get-lookup (key v) _ ready; attested = inr fine })
          (w ∷ ws) (gather_from-AreNoted movers overrides (world phase) phase (w ∷ ws) start up))

  frozen_there :
      All (IsFrozen (world quiescing).source) (w ∷ ws)
      → (facts movers overrides world inventory quiescing).frozen ≡ true
  unfolding facts_of
  frozen_there h = (frozen_iff (world quiescing).source inventory).1 h

  lag_zero_there :
      All (λ w. holds_state w ≡ true) (w ∷ ws)
      → All (IsCaughtUp movers overrides (world catching_up)) (w ∷ ws)
      → (facts movers overrides world inventory catching_up).lag_zero ≡ true
  unfolding facts_of
  lag_zero_there state h =
      ap (λ (g : Gathered). g.lag_zero) (gather-all catching_up state)
      ∙ lag_zero-all movers overrides (world catching_up) catching_up (w ∷ ws) start refl h

  promoted_there :
      All (λ w. holds_state w ≡ true) (w ∷ ws)
      → All (IsPromoted movers overrides (world promoting)) (w ∷ ws)
      → (facts movers overrides world inventory promoting).promoted ≡ true
  unfolding facts_of
  promoted_there state h =
      ap (λ (g : Gathered). g.promoted) (gather-all promoting state)
      ∙ promoted-all movers overrides (world promoting) (w ∷ ws) start refl h

  switched_there :
      (world switching).switch ≡ true
      → (facts movers overrides world inventory switching).switched ≡ true
  unfolding facts_of
  switched_there h = h

  -- The run of the Action is that of the machine on the facts of each reconcile.
  proceed-reconciles :
      (lag_zero : (facts movers overrides world inventory catching_up).lag_zero ≡ true)
      (promoted : (facts movers overrides world inventory promoting).promoted ≡ true)
      (frozen : (facts movers overrides world inventory quiescing).frozen ≡ true)
      (switched : (facts movers overrides world inventory switching).switched ≡ true)
      (up : (phase : ActionPhase)
        → is_late phase ≡ true
        → All (IsLive (seen phase).ready (seen phase).probes) (w ∷ ws))
      (dest : Option String) (n : ℕ) (status : ActionStatus)
      → proceed
          (facts movers overrides world inventory)
          seen
          frozen
          lag_zero
          promoted
          switched
          up
          dest
          n
          status
        ≡ reconciles movers overrides world inventory dest n status
  unfolding proceed reconciles run_cutover
  proceed-reconciles lag_zero promoted frozen switched up dest zero status = refl
  proceed-reconciles lag_zero promoted frozen switched up dest (suc n) status =
      proceed-reconciles lag_zero promoted frozen switched up dest n _

  -- From every phase but Failed and RolledBack, the reconciles of a Cutover end in phase Succeeded after
  -- a fixed number of them (six for a new Action), if each phase finds what it waits for: Quiescing
  -- every workload frozen on the source, CatchingUp no lag that holds it up, Promoting no error of a
  -- call that promotes, Switching none of the traffic hook, and WaitingReady every workload Ready on
  -- dest with a probe that passes, or the object graph in sync. No workload of the inventory, which is
  -- not empty, is stateless, no workload of the status is reported as skipped, and the Action is no
  -- dry run and no rollback.
  pub run_cutover-succeeds :
      (dest : Option String) (status : ActionStatus)
      → All (λ w. holds_state w ≡ true) (w ∷ ws)
      → All (IsFrozen (world quiescing).source) (w ∷ ws)
      → All (IsCaughtUp movers overrides (world catching_up)) (w ∷ ws)
      → All (IsPromoted movers overrides (world promoting)) (w ∷ ws)
      → (world switching).switch ≡ true
      → ((phase : ActionPhase)
          → is_late phase ≡ true
          → All (IsUp movers overrides (world phase)) (w ∷ ws))
      → is_lost status.phase ≡ false
      → All IsWanted status.workloads
      → (reconciles movers overrides world inventory dest (steps_left status.phase) status).phase
        ≡ succeeded
  run_cutover-succeeds dest status state froze caught promotes switches up on wanted =
      let frozen = frozen_there froze in
      let lag_zero = lag_zero_there state caught in
      let promoted = promoted_there state promotes in
      let switched = switched_there switches in
      let lives : (phase : ActionPhase)
          → is_late phase ≡ true
          → All (IsLive (seen phase).ready (seen phase).probes) (w ∷ ws) =
        λ phase late. live phase state (up phase late) in
      ap (λ (s : ActionStatus). s.phase)
        (sym (
          proceed-reconciles lag_zero promoted frozen switched lives dest (steps_left status.phase)
            status))
      ∙ progress (facts movers overrides world inventory) seen frozen lag_zero promoted switched
          lives dest (steps_left status.phase) status on wanted refl
