-- ===== src/Restore/Tests.antt =====
-- A restore of a database and a web server, at concrete observations.
use portage.Base.{
  ◌≡◌, refl, true, false, some, none, List, [], ◌∷◌, Option, Map, String, get, lookup, insert,
  index_from, has_prefix, ◌↔◌, Some,
}
use portage.Api.{
  ActionStatus, WorkloadActionStatus, sql_logical, stateless, unset, waiting_ready, rehydrating,
  succeeded, seconds,
}
use portage.Classify.{key}
use portage.Samples.{database, server}
use portage.Actionphase.{skipped, can_succeed}
use portage.Restore.{Facts, Result, again, final}
use portage.Restore.Advance.{advance, observed, restorable, waiting, artifact_ids}
use portage.Restore.Success.{IsProven, advance-IsProven}
use portage.Restore.Forward.{GoesOn, advance-GoesOn}
use portage.Restore.Refusal.{IsPreflighted, advance-IsPreflighted, is_start, advance-eq-none_iff}

abbrev facts : Facts
facts = record {
  inventory = database ∷ server ∷ [];
  useful = ("shop/StatefulSet/db", true) ∷ [];
  useful_message = some [];
  rehydrated = ("shop/StatefulSet/db", true) ∷ [];
  ready = some (("shop/StatefulSet/db", true) ∷ ("shop/Deployment/web", true) ∷ []);
  probes = some (("shop/StatefulSet/db", record { ok = true; message = "pg_isready" }) ∷ []);
  healed = none;
  dry_run = false;
  now = 7;
}

abbrev status : ActionStatus
status = record { phase = waiting_ready; message = ""; workloads = []; attestation = none }

abbrev restored_db : WorkloadActionStatus
restored_db = record {
  name = "db";
  key = "shop/StatefulSet/db";
  class = sql_logical;
  engine = "postgres";
  ready = true;
  probe = "pg_isready";
  probe_ok = true;
  message = "";
  healed = [];
}

abbrev restored_web : WorkloadActionStatus
restored_web = record restored_db {
  name = "web";
  key = "shop/Deployment/web";
  class = stateless;
  engine = "";
  probe = "k8s-ready";
}

abbrev both : List WorkloadActionStatus
both = restored_db ∷ restored_web ∷ []

abbrev success : Result
success = final succeeded "ready and class probes passed" both (
    some (record {
      recorded_at = 7;
      source = "controller";
      workloads = both;
      artifact_ids = "shop/StatefulSet/db" ∷ "shop/Deployment/web" ∷ [];
    }))

advance_succeeds : advance status facts ≡ some (success, some [])
unfolding advance observed get lookup index_from key skipped can_succeed has_prefix waiting
    artifact_ids
advance_succeeds = refl

advance-IsProven_example : IsProven 7 success
advance-IsProven_example =
    advance-IsProven status facts success (some []) (λ e. cc) refl advance_succeeds refl

advance-GoesOn_example : GoesOn waiting_ready success
advance-GoesOn_example = advance-GoesOn status facts success (some []) advance_succeeds

-- No dump of the database is useful: the restore goes on with the web server alone.
abbrev useless : Facts
useless = record facts { useful = [] }

abbrev fresh : ActionStatus
fresh = record status { phase = unset }

abbrev half : Result
half =
    again rehydrating "preflight passed"
      (record restored_db { message = "skipped: no useful artifact" } ∷ restored_web ∷ [])
      (seconds 2)

abbrev half_told : Option (Map String)
half_told = some (("shop/StatefulSet/db", "skipped: no useful artifact") ∷ [])

advance_skips : advance fresh useless ≡ some (half, half_told)
unfolding advance observed get lookup insert index_from key has_prefix
advance_skips = refl

advance-IsPreflighted_example : IsPreflighted [] (observed fresh useless) half
advance-IsPreflighted_example =
    advance-IsPreflighted fresh useless half half_told refl advance_skips

-- The same with a nil map of messages: a panic.
abbrev untold : Facts
untold = record useless { useful_message = none }

advance-eq-none_iff_example : (advance fresh untold ≡ none) ↔ (
    (is_start unset ≡ true)
    × (untold.useful_message ≡ none)
    × Some (λ w. restorable [] w ≡ false) (observed fresh untold))
advance-eq-none_iff_example = advance-eq-none_iff fresh untold

advance_panics : advance fresh untold ≡ none
unfolding advance observed get lookup index_from key
advance_panics = refl
