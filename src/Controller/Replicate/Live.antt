-- ===== src/Controller/Replicate/Live.antt =====
-- When a live replica is attested.
use portage.Base.{
  String, ◌==◌, ◌<>◌, ◌≡◌, refl, ◌↔◌, ◌⊎◌, Bool, true, false, Option, none, some, List, [], ◌∷◌,
  All, arith, Fallible, ok, err, Bool-cases, inl, inr, is_some, append-some_text,
}
use portage.Api.{is_stateless, Duration}
use portage.Classify.{Workload, Inventory}
use portage.Movers.{Registry, Mover, Pick}
use portage.Restore.{ProbeResult}
use portage.Controller.Frozen.{is_object_graph}
use portage.Controller.Failover.{Overrides}
use portage.Controller.Replicate.{
  Answers, Graph, note_sync, sync_from, after_graph, after_replicate, by_pick, choose,
  replicate_one, replicate_from, replicate_all, conclude, run_replicate, waiting_text, Step,
  replicate_requeue,
}

-- The text of an error has a character.
abbrev pub HasText : String → Type 0
HasText e = (e == "") ≡ false

waiting-HasText : (msg : String) → HasText (waiting_text <> ": " <> msg)
waiting-HasText msg = append-some_text waiting_text (": " <> msg) refl

module _ (movers : Registry) (overrides : Overrides) (a : Answers) where
  -- The errors of the movers and of the sync of the graph have a text.
  pub record IsWorded : Type 0 where
    pub of_choice : (w : Workload) (e : String) → choose movers overrides a w ≡ err e → HasText e
    pub of_replicate :
        (m : Mover) (w : Workload) (e : String) → a.replicate m w ≡ some e → HasText e
    pub of_graph : (w : Workload) (e : String) → a.graph w ≡ err e → HasText e

  abbrev pub IsGood : Fallible (Bool × String) → Type 0
  IsGood (err e) = ⊥
  IsGood (ok (good, msg)) = good ≡ true

  -- The object graph was synced and attested.
  abbrev pub IsSynced : Workload → Type 0
  IsSynced w = (is_object_graph w ≡ false) ⊎ IsGood (a.graph w)

  -- The workload was replicated by its mover with no error, and the probe of the copy passed.
  abbrev pub IsCopied : Workload → Pick → Type 0
  IsCopied w (err e) = ⊥
  IsCopied w (ok none) = ⊥
  IsCopied w (ok (some (m, capability))) =
      (capability.replicate ≡ true) × (a.replicate m w ≡ none) × ((a.probe m w).ok ≡ true)

  -- A workload keeps no state, or is the object graph of an inventory whose graph is synced, or is
  -- copied.
  abbrev pub IsLive : List Workload → Workload → Type 0
  IsLive ws w =
      (is_stateless w.class ≡ true)
      ⊎ ((is_object_graph w ≡ true) × All IsSynced ws)
      ⊎ ((is_object_graph w ≡ false) × IsCopied w (choose movers overrides a w))

  note_sync-trouble :
      (w : Workload) (r : Fallible (Bool × String)) (g : Graph)
      → ((e : String) → r ≡ err e → HasText e)
      → ((note_sync w r g).trouble == "" ≡ true) ↔ ((g.trouble == "" ≡ true) × IsGood r)
  note_sync-trouble w (err e) g worded = ground (arith, worded e refl)
  note_sync-trouble w (ok (true, msg)) g worded = ground arith
  note_sync-trouble w (ok (false, msg)) g worded = ground (arith, waiting-HasText msg)

  after_graph-empty :
      (trouble before : String)
      → (after_graph trouble before == "" ≡ true) ↔ ((before == "" ≡ true) × (trouble == "" ≡ true))
  after_graph-empty trouble before = ground arith

  after_replicate-empty :
      (w : Workload) (before : String) (r : Option String) (pr : ProbeResult)
      → ((e : String) → r ≡ some e → HasText e)
      → ((after_replicate w before r pr).0 == "" ≡ true)
        ↔ ((before == "" ≡ true) × (r ≡ none) × (pr.ok ≡ true))
  after_replicate-empty w before (some e) pr worded = ground (arith, worded e refl)
  after_replicate-empty w before none pr worded = ground (arith, waiting-HasText pr.message)

  by_pick-empty :
      (w : Workload) (before : String) (pick : Pick)
      → ((e : String) → pick ≡ err e → HasText e)
      → ((m : Mover) (e : String) → a.replicate m w ≡ some e → HasText e)
      → ((by_pick movers overrides a w before pick).0 == "" ≡ true)
        ↔ ((before == "" ≡ true) × IsCopied w pick)
  by_pick-empty w before (err e) worded copied = ground (arith, worded e refl)
  by_pick-empty w before (ok none) worded copied = ground arith
  by_pick-empty w before (ok (some (m, capability))) worded copied =
      elim (Bool-cases capability.replicate) [
        | inl able ↦ rw able (
            ground
              (arith, after_replicate-empty w before (a.replicate m w) (a.probe m w) (copied m)))
        | inr unable ↦ rw unable (ground arith)
      ]

  module _ (worded : IsWorded) where
    sync_from-trouble :
        (ws : List Workload) (g : Graph)
        → ((sync_from movers overrides a g ws).trouble == "" ≡ true)
          ↔ ((g.trouble == "" ≡ true) × All IsSynced ws)
    unfolding sync_from
    sync_from-trouble [] g = (λ h. (h, tt), λ h. h.0)
    sync_from-trouble (w ∷ ws) g = elim (Bool-cases (is_object_graph w)) [
      | inl graph ↦ rw graph (
          ground (
            arith,
            sync_from-trouble ws (note_sync w (a.graph w) g),
            note_sync-trouble w (a.graph w) g (worded.of_graph w),
          ))
      | inr other ↦ rw other (ground (arith, sync_from-trouble ws g))
    ]

    -- What `IsLive` asks of one workload, given the trouble with the graph.
    abbrev IsServed : String → Workload → Type 0
    IsServed trouble w =
        (is_stateless w.class ≡ true)
        ⊎ ((is_object_graph w ≡ true) × (trouble == "" ≡ true))
        ⊎ ((is_object_graph w ≡ false) × IsCopied w (choose movers overrides a w))

    replicate_one-empty :
        (g : Graph) (w : Workload) (before : String)
        → ((replicate_one movers overrides a g w before).0 == "" ≡ true)
          ↔ ((before == "" ≡ true) × IsServed g.trouble w)
    unfolding replicate_one
    replicate_one-empty g w before = ground (
      arith,
      after_graph-empty g.trouble before,
      by_pick-empty w before (choose movers overrides a w) (worded.of_choice w)
          (λ m. worded.of_replicate m w),
    )

    replicate_from-empty :
        (g : Graph) (ws : List Workload) (before : String)
        → ((replicate_from movers overrides a g ws before).0 == "" ≡ true)
          ↔ ((before == "" ≡ true) × All (IsServed g.trouble) ws)
    unfolding replicate_from
    replicate_from-empty g [] before = (λ h. (h, tt), λ h. h.0)
    replicate_from-empty g (w ∷ ws) before = ground (
      arith,
      replicate_from-empty g ws (replicate_one movers overrides a g w before).0,
      replicate_one-empty g w before,
    )

    All-IsServed_iff :
        (trouble : String) (all ws : List Workload)
        → ((trouble == "" ≡ true) ↔ All IsSynced all)
        → All (IsServed trouble) ws ↔ All (IsLive all) ws
    All-IsServed_iff trouble all [] synced = (λ h. h, λ h. h)
    All-IsServed_iff trouble all (w ∷ ws) synced =
        ground (arith, All-IsServed_iff trouble all ws synced, synced)

    replicate_all-empty :
        (ws : List Workload)
        → ((replicate_all movers overrides a ws).0 == "" ≡ true) ↔ All (IsLive ws) ws
    unfolding replicate_all
    replicate_all-empty ws =
        let start : Graph = record { status = none; trouble = "" } in
        let g : Graph = sync_from movers overrides a start ws in
        let synced : (g.trouble == "" ≡ true) ↔ All IsSynced ws =
          ground (arith, sync_from-trouble ws start) in
        ground (arith, replicate_from-empty g ws "", All-IsServed_iff g.trouble ws ws synced)

    conclude-attested :
        (dry_run : Bool) (d : Duration) (step : Step)
        → (is_some (conclude movers overrides a dry_run d step).attestation ≡ true)
          ↔ ((dry_run ≡ false) × (step.0 == "" ≡ true))
    conclude-attested dry_run d step = ground arith

    -- A reconcile of a live replica attests it exactly if it is no dry run and every workload of
    -- the inventory keeps no state, or is the object graph and every object graph was synced and
    -- attested, or was replicated with no error by a mover that can replicate and the probe of
    -- the copy passed. This holds if errors have a text.
    pub run_replicate-attested_iff :
        (dry_run : Bool) (rpo : String) (inv : Inventory)
        → (is_some (run_replicate movers overrides a dry_run rpo inv).attestation ≡ true)
          ↔ ((dry_run ≡ false) × All (IsLive inv.workloads) inv.workloads)
    unfolding run_replicate
    run_replicate-attested_iff dry_run rpo inv = ground (
      arith,
      conclude-attested dry_run (replicate_requeue a.parse rpo)
          (replicate_all movers overrides a inv.workloads),
      replicate_all-empty inv.workloads,
    )
