-- ===== src/Controller/Failover/Guarded.antt =====
-- What the clusters answered where a cutover goes on.
use mathlib.Core.Path.{subst}
use portage.Base.{
  ℕ, i64_lt, String, ◌≡◌, ◌⊎◌, refl, ap, Bool, true, false, not, ◌&&◌, ◌||◌, List, [], ◌∷◌, All,
  arith, if◌then◌else◌, Fallible, ok, err, none,
}
use portage.Api.{
  ActionPhase, ActionStatus, or_pending, quiescing, catching_up, promoting, switching,
  waiting_ready, rolled_back,
}
use portage.Classify.{Workload, Inventory, key, stateful}
use portage.Movers.{Registry, select}
use portage.Restore.{Result, final}
use portage.Controller.Frozen.{is_object_graph, IsFrozen, frozen_iff}
use portage.Controller.Failover.{
  Overrides, Answers, note_graph, gather_workload, Gathered, lag_fine, promotion, gather_one,
  gather_from, gather, facts_of, run_cutover, can_replicate, is_postgres, mover_override,
  replicates,
}
use portage.Cutover.{Facts, step, seed, advance, is_rolled_back}

-- The machine past its test for a rollback.
abbrev past : ActionPhase → ActionStatus → Facts → Result
past phase status f =
    let ws = seed status.workloads f in
    if f.rollback && not (is_rolled_back phase)
    then final rolled_back "source unfrozen; traffic rolled back" ws none
    else step phase status f ws

advance-past :
    (status : ActionStatus) (f : Facts) (from to : ActionPhase)
    → or_pending status.phase ≡ from
    → (advance status f).phase ≡ to
    → (past from status f).phase ≡ to
unfolding advance
advance-past status f from to at = subst (λ phase. (past phase status f).phase ≡ to) at

module _ (status : ActionStatus) (f : Facts) where
  quiescing-frozen :
      status.phase ≡ quiescing → (advance status f).phase ≡ catching_up → f.frozen ≡ true
  unfolding step
  quiescing-frozen at on =
      let on' = advance-past status f quiescing catching_up (ap or_pending at) on in ground arith

  catching_up-lag_zero :
      status.phase ≡ catching_up → (advance status f).phase ≡ promoting → f.lag_zero ≡ true
  unfolding step
  catching_up-lag_zero at on =
      let on' = advance-past status f catching_up promoting (ap or_pending at) on in ground arith

  promoting-promoted :
      status.phase ≡ promoting → (advance status f).phase ≡ switching → f.promoted ≡ true
  unfolding step
  promoting-promoted at on =
      let on' = advance-past status f promoting switching (ap or_pending at) on in ground arith

  switching-switched :
      status.phase ≡ switching → (advance status f).phase ≡ waiting_ready → f.switched ≡ true
  unfolding step
  switching-switched at on =
      let on' = advance-past status f switching waiting_ready (ap or_pending at) on in ground arith

note_graph_flags :
    (k : String) (r : Fallible (Bool × String)) (g : Gathered)
    → ((note_graph k r g).lag_zero ≡ g.lag_zero) × ((note_graph k r g).promoted ≡ g.promoted)
note_graph_flags k (err e) g = (refl, refl)
note_graph_flags k (ok r) g = (refl, refl)

-- A flag that either branch may clear.
flag_either :
    (b : Bool) (s t : Gathered) (flag : Gathered → Bool) (old fine : Bool)
    → flag s ≡ old
    → flag t ≡ (old && fine)
    → flag (if b then s else t) ≡ (old && (b || fine))
flag_either true s t flag true fine h k = h
flag_either true s t flag false fine h k = h
flag_either false s t flag true fine h k = k
flag_either false s t flag false fine h k = k

-- The lag is read and not above zero, or it is not known and VolSync does not deny that it is zero.
abbrev pub HasNoLag : Fallible (Bool × ℕ) → Fallible Bool → Type 0
HasNoLag (ok (true, n)) volsync = i64_lt 0 n ≡ false
HasNoLag unknown (ok zero) = zero ≡ true
HasNoLag unknown (err e) = Unit

lag_fine-HasNoLag :
    (lag : Fallible (Bool × ℕ)) (volsync : Fallible Bool)
    → lag_fine lag volsync ≡ true
    → HasNoLag lag volsync
lag_fine-HasNoLag (ok (true, n)) volsync h = ground (arith, h)
lag_fine-HasNoLag (ok (false, n)) (ok zero) h = h
lag_fine-HasNoLag (ok (false, n)) (err e) h = tt
lag_fine-HasNoLag (err e) (ok zero) h = h
lag_fine-HasNoLag (err e) (err f) h = tt

module _ (movers : Registry) (overrides : Overrides) (a : Answers) where
  -- The lag that was read does not hold the cutover up.
  abbrev pub IsCaughtUp : Workload → Type 0
  IsCaughtUp w = (is_object_graph w ≡ true) ⊎ HasNoLag (a.lag_seconds w) (a.lag_zero w)

  -- The call that promotes the workload met no error: the mover's, if it can replicate, else that of
  -- Postgres, if it is one; any other workload is scaled up.
  abbrev pub IsPromoted : Workload → Type 0
  IsPromoted w =
      let able = can_replicate (select w (mover_override overrides w replicates) movers) in
      (is_object_graph w ≡ true)
      ⊎ ((able ≡ true) × (a.promote w ≡ true))
      ⊎ ((able ≡ false) × (is_postgres w ≡ true) × (a.pg_promote w ≡ true))
      ⊎ ((able ≡ false) × (is_postgres w ≡ false))

  promotion-fine : (w : Workload) → (promotion movers overrides a w).1 ≡ true → IsPromoted w
  unfolding promotion
  promotion-fine w h = ground (arith, h)

  pub lag_zero-gather_one :
      (phase : ActionPhase) (w : Workload) (g : Gathered)
      → (gather_one movers overrides a phase w g).lag_zero
        ≡ (g.lag_zero && (is_object_graph w || lag_fine (a.lag_seconds w) (a.lag_zero w)))
  unfolding gather_one
  lag_zero-gather_one phase w g =
      flag_either (is_object_graph w) _ (gather_workload movers overrides a phase w g)
        (λ r. r.lag_zero) g.lag_zero _ (note_graph_flags (key w) a.graph g).0 refl

  pub promoted-gather_one :
      (w : Workload) (g : Gathered)
      → (gather_one movers overrides a promoting w g).promoted
        ≡ (g.promoted && (is_object_graph w || (promotion movers overrides a w).1))
  unfolding gather_one
  promoted-gather_one w g =
      flag_either (is_object_graph w) _ (gather_workload movers overrides a promoting w g)
        (λ r. r.promoted) g.promoted _ (note_graph_flags (key w) a.graph g).1 refl

  lag_zero-gather_from :
      (phase : ActionPhase) (ws : List Workload) (g : Gathered)
      → (gather_from movers overrides a phase ws g).lag_zero ≡ true
      → (g.lag_zero ≡ true) × All IsCaughtUp ws
  unfolding gather_from
  lag_zero-gather_from phase [] g h = (h, tt)
  lag_zero-gather_from phase (w ∷ ws) g h =
      let (here, rest) =
        lag_zero-gather_from phase ws (gather_one movers overrides a phase w g) h in
      ground (
        arith,
        lag_zero-gather_one phase w g,
        lag_fine-HasNoLag (a.lag_seconds w) (a.lag_zero w),
        here,
        rest,
      )

  promoted-gather_from :
      (ws : List Workload) (g : Gathered)
      → (gather_from movers overrides a promoting ws g).promoted ≡ true
      → (g.promoted ≡ true) × All IsPromoted ws
  unfolding gather_from
  promoted-gather_from [] g h = (h, tt)
  promoted-gather_from (w ∷ ws) g h =
      let (here, rest) = promoted-gather_from ws (gather_one movers overrides a promoting w g) h in
      ground (arith, promoted-gather_one w g, promotion-fine w, here, rest)

  module _ (status : ActionStatus) (dry_run rollback : Bool) (inv : Inventory) where
    abbrev result : Result
    result = (run_cutover movers overrides a status dry_run rollback inv).0

    abbrev given : Facts
    given = facts_of movers overrides a status.phase dry_run rollback inv

    -- A flag that is set in the facts of the phase that the Action is in.
    given_in :
        (phase : ActionPhase)
        → status.phase ≡ phase
        → (flag : Facts → Bool) → flag given ≡ true
        → flag (facts_of movers overrides a phase dry_run rollback inv) ≡ true
    given_in phase at flag =
        subst (λ p. flag (facts_of movers overrides a p dry_run rollback inv) ≡ true) at

    -- A cutover leaves a phase for the next one only on what the clusters answered in that reconcile.
    -- Quiescing, if every workload is stateless, the object graph, or read with no replicas.
    -- CatchingUp, if of every stateful workload but the graph the lag is not above zero, or,
    -- where it is not known, VolSync does not deny that it is. Promoting, if the call that promotes met no error for each of these.
    -- Switching, if the traffic hook did not fail.
    pub run_cutover-IsGuarded :
        (status.phase ≡ quiescing
          → result.phase ≡ catching_up
          → All (IsFrozen a.source) inv.workloads)
        × (status.phase ≡ catching_up → result.phase ≡ promoting → All IsCaughtUp (stateful inv))
        × (status.phase ≡ promoting → result.phase ≡ switching → All IsPromoted (stateful inv))
        × (status.phase ≡ switching → result.phase ≡ waiting_ready → a.switch ≡ true)
    unfolding run_cutover facts_of gather
    run_cutover-IsGuarded = (
      λ at on.
          (frozen_iff a.source inv).0
            (given_in quiescing at (λ f. f.frozen) (quiescing-frozen status given at on)),
      λ at on.
          (lag_zero-gather_from catching_up (stateful inv) _ (
            given_in catching_up at (λ f. f.lag_zero) (catching_up-lag_zero status given at on))).1,
      λ at on.
          (promoted-gather_from (stateful inv) _
            (given_in promoting at (λ f. f.promoted) (promoting-promoted status given at on))).1,
      λ at on. given_in switching at (λ f. f.switched) (switching-switched status given at on),
    )
