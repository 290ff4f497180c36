-- ===== src/Controller/Failover/Tests.antt =====
-- A cutover of a database whose replica lags.
use portage.Base.{◌≡◌, refl, true, false, none, some, [], ◌∷◌, All, ok, lookup, i64_lt, inr, arith}
use portage.Api.{
  ActionStatus, succeeded, unset, quiescing, catching_up, promoting, switching, waiting_ready,
}
use portage.Classify.{Inventory, key, stateful}
use portage.Samples.{database, server}
use portage.Controller.Frozen.{is_object_graph, IsFrozen}
use portage.Controller.Failover.{mover_override, Answers, Overrides, pg_promotes, run_cutover}
use portage.Scale.{scaled_to_zero}
use portage.Controller.Failover.Guarded.{IsCaughtUp, IsPromoted, run_cutover-IsGuarded}
use portage.Controller.Failover.Through.{reconciles, run_cutover-succeeds}
use portage.Cutover

abbrev answers : Answers
answers = record {
  graph = ok (true, "");
  lag_seconds = λ w. ok (true, 4);
  lag_zero = λ w. ok true;
  promote = λ w. true;
  pg_promote = λ w. true;
  ready = λ w. ok true;
  exec = true;
  probe = λ w. record { ok = true; message = "" };
  source = λ w. ok (record { replicas = some 0; annotations = [] });
  stateful_set = λ w. ok (record { replicas = some 0; annotations = [] });
  switch = true;
  atoi = λ s. none;
  now = 7;
}

abbrev overrides : Overrides
overrides = record { by_class = []; backup = ""; restore = ""; replicate = "" }

abbrev inventory : Inventory
inventory = record { namespaces = "shop" ∷ []; workloads = database ∷ server ∷ [] }

abbrev lagging : ActionStatus
lagging = record { phase = catching_up; message = ""; workloads = []; attestation = none }

waits : (run_cutover [] overrides answers lagging false false inventory).0.phase ≡ catching_up
unfolding run_cutover Cutover.advance i64_lt
waits = refl

promotes_here :
    (run_cutover [] overrides answers
      (record lagging { phase = promoting })
      false
      false
      inventory).1
    ≡ pg_promotes "shop/StatefulSet/db" ∷ []
unfolding run_cutover key lookup
promotes_here = refl

run_cutover-IsGuarded_example :
    (catching_up ≡ quiescing
      → (run_cutover [] overrides answers lagging false false inventory).0.phase ≡ catching_up
      → All (IsFrozen answers.source) inventory.workloads)
    × (lagging.phase ≡ catching_up
        → (run_cutover [] overrides answers lagging false false inventory).0.phase ≡ promoting
        → All (IsCaughtUp [] overrides answers) (stateful inventory))
    × (lagging.phase ≡ promoting
        → (run_cutover [] overrides answers lagging false false inventory).0.phase ≡ switching
        → All (IsPromoted [] overrides answers) (stateful inventory))
    × (lagging.phase ≡ switching
        → (run_cutover [] overrides answers lagging false false inventory).0.phase ≡ waiting_ready
        → answers.switch ≡ true)
run_cutover-IsGuarded_example =
    run_cutover-IsGuarded [] overrides answers lagging false false inventory

-- The lag is gone when it is read.
abbrev calm : Answers
calm = record answers { lag_seconds = λ w. ok (true, 0) }

abbrev new_cutover : ActionStatus
new_cutover = record lagging { phase = unset }

is_stored : is_object_graph database ≡ false
unfolding is_object_graph
is_stored = refl

database-IsPromoted : IsPromoted [] overrides calm database
unfolding mover_override
database-IsPromoted = ground arith

database-IsFrozen : IsFrozen calm.source database
unfolding scaled_to_zero
database-IsFrozen = inr (inr (refl, refl))

database-IsCaughtUp : IsCaughtUp [] overrides calm database
unfolding i64_lt
database-IsCaughtUp = inr refl

run_cutover-succeeds_example :
    (reconciles [] overrides
      (λ phase. calm)
      (record { namespaces = []; workloads = database ∷ [] })
      (some "dr")
      6
      new_cutover).phase
    ≡ succeeded
run_cutover-succeeds_example =
    run_cutover-succeeds [] overrides (λ phase. calm) [] database [] (some "dr") new_cutover
      (refl, tt) (database-IsFrozen, tt) (database-IsCaughtUp, tt) (database-IsPromoted, tt) refl
      (λ phase late. (inr (is_stored, (refl, (refl, refl))), tt)) refl tt
