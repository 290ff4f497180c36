-- ===== src/Controller/Replicate/Tests.antt =====
-- A live replica of a database by one mover, and of none.
use portage.Base.{arith, ◌≡◌, ◌↔◌, refl, false, true, none, some, [], ◌∷◌, All, ok, lookup, is_some}
use portage.Api.{seconds, sql_logical, failed}
use portage.Classify.{Inventory}
use portage.Samples.{database, server}
use portage.Movers.{Mover}
use portage.Controller.Failover.{Overrides, mover_override}
use portage.Controller.Replicate.{Answers, run_replicate, choose}
use portage.Controller.Replicate.Live.{IsWorded, IsLive, run_replicate-attested_iff}
use portage.Controller.Replicate.Requeue.{IsPaced, run_replicate-IsPaced}

abbrev streaming : Mover
streaming = record {
  name = "postgres";
  classes = sql_logical ∷ [];
  discover = λ w. ok (record { backup = false; replicate = true; restore = false });
}

-- The RPO of the Policy is an hour.
abbrev answers : Answers
answers = record {
  graph = λ w. ok (true, "");
  dest = some (λ w. ok false);
  replicate = λ m w. none;
  probe = λ m w. record { ok = true; message = "lag 0" };
  parse = λ s. ok (seconds 3600);
  now = 7;
}

abbrev overrides : Overrides
overrides = record { by_class = []; backup = ""; restore = ""; replicate = "" }

abbrev inventory : Inventory
inventory = record { namespaces = "shop" ∷ []; workloads = database ∷ server ∷ [] }

is_attested :
    is_some (run_replicate (streaming ∷ []) overrides answers false "1h" inventory).attestation
    ≡ true
unfolding run_replicate choose lookup mover_override
is_attested = refl

is_refused : (run_replicate [] overrides answers false "1h" inventory).phase ≡ failed
unfolding run_replicate choose lookup mover_override
is_refused = refl

waits_less :
    (run_replicate (streaming ∷ []) overrides answers false "1h" inventory).requeue_after
    ≡ seconds 15
unfolding run_replicate choose lookup mover_override
waits_less = refl

run_replicate-IsPaced_example :
    IsPaced
      (streaming ∷ [])
      overrides
      answers
      (run_replicate (streaming ∷ []) overrides answers false "1h" inventory)
run_replicate-IsPaced_example =
    run_replicate-IsPaced (streaming ∷ []) overrides answers false "1h" inventory

is_worded : IsWorded (streaming ∷ []) overrides answers
unfolding choose lookup mover_override
is_worded = record {
  of_choice = λ w e eq. ground (arith, eq);
  of_replicate = λ m w e eq. ground arith;
  of_graph = λ w e eq. ground arith;
}

run_replicate-attested_iff_example :
    (is_some (run_replicate (streaming ∷ []) overrides answers false "1h" inventory).attestation
      ≡ true)
    ↔ ((false ≡ false)
        × All (IsLive (streaming ∷ []) overrides answers inventory.workloads) inventory.workloads)
run_replicate-attested_iff_example =
    run_replicate-attested_iff (streaming ∷ []) overrides answers is_worded false "1h" inventory
