-- ===== src/Controller/Dispatch/Tests.antt =====
-- A backup of a database, and a Failed restore that stays so.
use portage.Base.{◌≡◌, refl, true, false, none, [], ◌∷◌, ok, err, contains_fold}
use portage.Api.{ActionStatus, pending, failed, seconds}
use portage.Samples.{database, server}
use portage.Policy.{Policy}
use portage.Controller.Resume.{backup, restore}
use portage.Controller.Dispatch.{Asked, World, leaves, reconcile}
use portage.Controller.Dispatch.Honest.{IsHonest, reconcile-IsHonest}

abbrev policy : Policy
policy = record {
  name = "shop";
  namespace = "shop";
  namespaces = [];
  backup_enabled = true;
  backup_rpo = "1h";
  replicate_enabled = false;
  restore_auto = false;
  objects_enabled = false;
}

abbrev world : World
world = record {
  has_kube = true;
  policy = ok policy;
  artifacts = [];
  rpo = "1h";
  pending_error = none;
  pair = ok none;
  endpoints_error = none;
  has_dest_kube = true;
  walk = λ ns. ok (record { namespaces = ns; workloads = database ∷ server ∷ [] });
  write_error = none;
  engines = [];
  movers = [];
  overrides = record { by_class = []; backup = ""; restore = ""; replicate = "" };
  on_backup = record {
    capture_graph = λ w. err "";
    backup = λ m w. err "";
    latest_ready = λ w. (false, "");
    capture = λ w. ok ("dumps/db.sql", 8_000_000, true);
    exec = true;
    live_bytes = λ w. err "";
    write_error = none;
    now = 7;
  };
  on_restore = record {
    apply = none;
    has_dest = true;
    exec = true;
    ready = λ w. ok true;
    probe = λ w. record { ok = true; message = "" };
    restore_graph = λ w id. err "";
    restore = λ m w art. none;
    ensure = λ w pvc. ok true;
    ensured = λ w pvc. [];
    template = λ w. err "";
    apply_dump = λ w id. none;
    annotation = λ w. ok "";
    update = λ w. none;
    now = 7;
  };
  on_replicate = record {
    graph = λ w. err "";
    dest = none;
    replicate = λ m w. none;
    probe = λ m w. record { ok = true; message = "" };
    parse = λ s. ok (seconds 60);
    now = 7;
  };
  on_cutover = record {
    graph = err "";
    lag_seconds = λ w. ok (true, 0);
    lag_zero = λ w. ok true;
    promote = λ w. true;
    pg_promote = λ w. true;
    ready = λ w. ok true;
    exec = true;
    probe = λ w. record { ok = true; message = "" };
    source = λ w. err "";
    stateful_set = λ w. err "";
    switch = true;
    atoi = λ s. none;
    now = 7;
  };
}

abbrev asked : Asked
asked = record {
  type = backup;
  dry_run = false;
  rollback = false;
  policy_ref = "shop";
  applied = "";
}

abbrev status : ActionStatus
status = record { phase = pending; message = ""; workloads = []; attestation = none }

stays_failed :
    reconcile
      (record asked { type = restore })
      world
      (record status { phase = failed; message = "preflight: no workloads in inventory" })
    ≡ leaves
unfolding reconcile contains_fold
stays_failed = refl

reconcile-IsHonest_example : IsHonest asked world refl status (reconcile asked world status)
reconcile-IsHonest_example = reconcile-IsHonest asked world refl status
