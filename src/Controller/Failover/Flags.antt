-- ===== src/Controller/Failover/Flags.antt =====
-- internal/controller/action_controller.go: what `runCutover` gathers of clusters that let a cutover through.
use mathlib.Core.Path.{subst}
use portage.Base.{
  ℕ, String, ◌==◌, ◌≡◌, ◌⊎◌, inl, inr, refl, ap, sym, ◌∙◌, Bool, true, false, ◌&&◌, ◌||◌, List, [],
  ◌∷◌, All, arith, if◌then◌else◌, Fallible, ok, err, some, Map, lookup, insert, lookup-insert,
  eq_refl,
}
use portage.Api.{ActionPhase, promoting}
use portage.Classify.{Workload, key}
use portage.Movers.{Registry}
use portage.Restore.{ProbeResult}
use portage.Controller.Frozen.{is_object_graph}
use portage.Controller.Failover.{
  Overrides, Answers, note_graph, Gathered, lag_fine, promotion, gather_one, gather_from,
}
use portage.Controller.Failover.Guarded.{
  HasNoLag, IsCaughtUp, IsPromoted, lag_zero-gather_one, promoted-gather_one,
}
use portage.Cutover.Live.{is_ok}

HasNoLag-lag_fine :
    (lag : Fallible (Bool × ℕ)) (volsync : Fallible Bool)
    → HasNoLag lag volsync
    → lag_fine lag volsync ≡ true
HasNoLag-lag_fine (ok (true, n)) volsync h = ground (arith, h)
HasNoLag-lag_fine (ok (false, n)) (ok caught_up) h = h
HasNoLag-lag_fine (ok (false, n)) (err e) h = refl
HasNoLag-lag_fine (err e) (ok caught_up) h = h
HasNoLag-lag_fine (err e) (err f) h = refl

both_true : (old b fine : Bool) → old ≡ true → (b || fine) ≡ true → (old && (b || fine)) ≡ true
both_true old b fine h k = rw (h, k) refl

-- The sync of the object graph met no error and left nothing to attest.
abbrev pub IsGood : Fallible (Bool × String) → Type 0
IsGood (ok (good, message)) = good ≡ true
IsGood (err e) = ⊥

module _ (movers : Registry) (overrides : Overrides) (a : Answers) where
  -- The workload is Ready on dest and its probe passes; the object graph is in sync.
  abbrev pub IsUp : Workload → Type 0
  IsUp w =
      ((is_object_graph w ≡ true) × IsGood a.graph)
      ⊎ ((is_object_graph w ≡ false)
          × ((a.ready w ≡ ok true) × ((a.exec ≡ true) × ((a.probe w).ok ≡ true))))

  pub lag_zero-all :
      (phase : ActionPhase) (ws : List Workload) (g : Gathered)
      → g.lag_zero ≡ true
      → All (IsCaughtUp movers overrides a) ws
      → (gather_from movers overrides a phase ws g).lag_zero ≡ true
  unfolding gather_from
  lag_zero-all phase [] g h _ = h
  lag_zero-all phase (w ∷ ws) g h (here, rest) =
      lag_zero-all phase ws (gather_one movers overrides a phase w g)
        (lag_zero-gather_one movers overrides a phase w g
          ∙ both_true g.lag_zero (is_object_graph w) _ h (fine here))
        rest
    where
      fine :
          IsCaughtUp movers overrides a w
          → (is_object_graph w || lag_fine (a.lag_seconds w) (a.lag_zero w)) ≡ true
      fine (inl graph) = rw graph refl
      fine (inr none_left) =
          let calm = HasNoLag-lag_fine (a.lag_seconds w) (a.lag_zero w) none_left in
          ground (arith, calm)

  promotion-true :
      (w : Workload)
      → IsPromoted movers overrides a w
      → (is_object_graph w || (promotion movers overrides a w).1) ≡ true
  unfolding promotion
  promotion-true w h = ground (arith, h)

  pub promoted-all :
      (ws : List Workload) (g : Gathered)
      → g.promoted ≡ true
      → All (IsPromoted movers overrides a) ws
      → (gather_from movers overrides a promoting ws g).promoted ≡ true
  unfolding gather_from
  promoted-all [] g h _ = h
  promoted-all (w ∷ ws) g h (here, rest) =
      promoted-all ws (gather_one movers overrides a promoting w g)
        (promoted-gather_one movers overrides a w g
          ∙ both_true g.promoted (is_object_graph w) _ h (promotion-true w here))
        rest

  -- The maps say of a key that its workload is up.
  abbrev pub IsNoted : String → Gathered → Type 0
  IsNoted k g = (lookup k g.ready ≡ some true) × (is_ok (lookup k g.probes) ≡ true)

  -- Of a key that is there or is written now.
  noted :
      (k n : String) (p : ProbeResult) (ready : Map Bool) (probes : Map ProbeResult)
      → p.ok ≡ true
      → ((n == k) ≡ true) ⊎ ((lookup k ready ≡ some true) × (is_ok (lookup k probes) ≡ true))
      → (lookup k (insert n true ready) ≡ some true) × (is_ok (lookup k (insert n p probes)) ≡ true)
  noted k n p ready probes fine h = (
    lookup-insert n true ready k ∙ here (n == k) h,
    ap is_ok (lookup-insert n p probes k) ∙ there (n == k) h,
  )
    where
      here :
          (b : Bool)
          → (b ≡ true) ⊎ ((lookup k ready ≡ some true) × (is_ok (lookup k probes) ≡ true))
          → (if b then some true else lookup k ready) ≡ some true
      here true _ = refl
      here false h = ground (arith, h)

      there :
          (b : Bool)
          → (b ≡ true) ⊎ ((lookup k ready ≡ some true) × (is_ok (lookup k probes) ≡ true))
          → is_ok (if b then some p else lookup k probes) ≡ true
      there true _ = fine
      there false h = ground (arith, h)

  note_graph-IsNoted :
      (k n : String) (r : Fallible (Bool × String)) (g : Gathered)
      → IsGood r
      → ((n == k) ≡ true) ⊎ IsNoted k g
      → IsNoted k (note_graph n r g)
  note_graph-IsNoted k n (err e) g good h = absurd good
  note_graph-IsNoted k n (ok (fine, message)) g good h =
      subst (λ b. IsNoted k (note_graph n (ok (b, message)) g)) (sym good)
        (noted k n (record { ok = true; message = message }) g.ready g.probes refl h)

  gather_one-IsNoted :
      (k : String) (phase : ActionPhase) (w : Workload) (g : Gathered)
      → IsUp w
      → ((key w == k) ≡ true) ⊎ IsNoted k g
      → IsNoted k (gather_one movers overrides a phase w g)
  unfolding gather_one
  gather_one-IsNoted k phase w g (inl (graph, good)) h =
      rw graph (note_graph-IsNoted k (key w) a.graph g good h)
  gather_one-IsNoted k phase w g (inr (other, (up, (exec, fine)))) h =
      rw (other, up, exec) (noted k (key w) (a.probe w) g.ready g.probes fine h)

  gather_from-IsNoted :
      (k : String) (phase : ActionPhase) (ws : List Workload) (g : Gathered)
      → All IsUp ws
      → IsNoted k g
      → IsNoted k (gather_from movers overrides a phase ws g)
  unfolding gather_from
  gather_from-IsNoted k phase [] g _ h = h
  gather_from-IsNoted k phase (w ∷ ws) g (up, rest) h =
      gather_from-IsNoted k phase ws (gather_one movers overrides a phase w g) rest
        (gather_one-IsNoted k phase w g up (inr h))

  pub gather_from-AreNoted :
      (phase : ActionPhase) (ws : List Workload) (g : Gathered)
      → All IsUp ws
      → All (λ w. IsNoted (key w) (gather_from movers overrides a phase ws g)) ws
  unfolding gather_from
  gather_from-AreNoted phase [] g _ = tt
  gather_from-AreNoted phase (w ∷ ws) g (up, rest) =
      let g' = gather_one movers overrides a phase w g in
      (
        gather_from-IsNoted (key w) phase ws g' rest
            (gather_one-IsNoted (key w) phase w g up (inl (eq_refl (key w)))),
        gather_from-AreNoted phase ws g' rest,
      )
