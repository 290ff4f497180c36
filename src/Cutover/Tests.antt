-- ===== src/Cutover/Tests.antt =====
-- A cutover of a database, reconcile by reconcile.
use portage.Base.{
  All, ◌≡◌, refl, ◌↔◌, ◌⊎◌, true, false, some, none, List, [], ◌∷◌, get, lookup, insert, index_from,
  has_prefix, replicate, Map, Bool,
}
use portage.Api.{ActionStatus, unset, waiting_ready, succeeded, rolled_back}
use portage.Samples.{database}
use portage.Classify.{key}
use portage.Actionphase.{skipped, can_succeed}
use portage.Restore.{ProbeResult}
use portage.Controller.Status.{write_back}
use portage.Cutover.{Facts, advance}
use portage.Cutover.Success.{IsAttested, advance-IsAttested, advance-eq-rolled_back_iff}
use portage.Cutover.Order.{run, InOrder, gates, run-InOrder}

abbrev ready : Map Bool
ready = ("shop/StatefulSet/db", true) ∷ []

abbrev probes : Map ProbeResult
probes = ("shop/StatefulSet/db", record { ok = true; message = "pg_isready" }) ∷ []

-- Every gate is open and the database runs on dest.
abbrev through : Facts
through = record {
  inventory = database ∷ [];
  frozen = true;
  lag_zero = true;
  promoted = true;
  switched = true;
  rolled = false;
  ready = some ready;
  probes = some probes;
  dry_run = false;
  rollback = false;
  now = 7;
}

abbrev fresh : ActionStatus
fresh = record { phase = unset; message = ""; workloads = []; attestation = none }

abbrev last : ActionStatus
last = record fresh { phase = waiting_ready }

last_succeeds : (advance last through).phase ≡ succeeded
unfolding advance lookup get index_from insert key skipped can_succeed has_prefix
last_succeeds = refl

advance-IsAttested_example : IsAttested through (advance last through)
advance-IsAttested_example = advance-IsAttested last through (λ e. cc) refl last_succeeds

advance-eq-rolled_back_iff_example :
    ((advance last through).phase ≡ rolled_back) ↔ ((false ≡ true) ⊎ (waiting_ready ≡ rolled_back))
advance-eq-rolled_back_iff_example = advance-eq-rolled_back_iff last through

-- The replica catches up one reconcile late.
abbrev observations : List Facts
observations = through ∷ through ∷ record through { lag_zero = false } ∷ replicate 4 through

run_succeeds : (run (some "dr") fresh observations).phase ≡ succeeded
unfolding run write_back advance lookup get index_from insert key skipped can_succeed has_prefix
run_succeeds = refl

live_run : All (λ f. f.dry_run ≡ false) observations
live_run = (refl, (refl, (refl, (refl, (refl, (refl, (refl, tt)))))))

run-InOrder_example : InOrder (gates unset) observations
run-InOrder_example = run-InOrder (some "dr") fresh observations live_run run_succeeds
