-- ===== src/Controller/Tests.antt =====
-- A restore of nothing, and a restore whose objects a webhook refused.
use portage.Base.{
  ok, Fallible, ◌∷◌, All, ◌↔◌, ◌≡◌, ◌≢◌, refl, false, true, none, some, [], contains_fold,
  str_contains,
}
use portage.Api.{ActionStatus, pending, rehydrating, failed}
use portage.Classify.{Workload, Inventory}
use portage.Samples.{database, server}
use portage.Scale.{Scaled}
use portage.Controller.Frozen.{frozen, IsFrozen, frozen_iff}
use portage.Restore.{Facts, Result, final}
use portage.Restore.Advance.{advance, observed}
use portage.Controller.Status.{write_back}
use portage.Controller.Resume.{restore, enter}
use portage.Controller.Final.{advance-IsFinal}

abbrev nothing : Facts
nothing = record {
  inventory = [];
  useful = [];
  useful_message = some [];
  rehydrated = [];
  ready = none;
  probes = none;
  healed = none;
  dry_run = false;
  now = 7;
}

abbrev status : ActionStatus
status = record { phase = pending; message = ""; workloads = []; attestation = none }

abbrev refusal : Result
refusal = final failed "preflight: no workloads in inventory" [] none

refused : advance status nothing ≡ some (refusal, some [])
unfolding advance observed
refused = refl

pending_goes : pending ≢ failed
pending_goes e = cc

advance-IsFinal_example : enter restore false (write_back (some "eu") status refusal) ≡ none
advance-IsFinal_example =
    advance-IsFinal restore false (some "eu") status nothing refusal (some []) pending_goes refused
      refl

-- Such a failure is taken up again, from Rehydrating.
resume_test :
    enter restore false
      (record status { phase = failed; message = "dest apply: admission webhook denied; dest=eu" })
    ≡ some (record status {
      phase = rehydrating;
      message = "dest apply: admission webhook denied; dest=eu";
    })
unfolding enter contains_fold str_contains
resume_test = refl

abbrev stopped : Workload → Fallible Scaled
stopped w = ok (record { replicas = some 0; annotations = [] })

abbrev claim : Workload
claim = record database { name = "old"; kind = "PersistentVolumeClaim"; engine = "" }

abbrev shop : Inventory
shop = record { namespaces = "shop" ∷ []; workloads = database ∷ server ∷ [] }

frozen_iff_example : (frozen stopped shop ≡ true) ↔ All (IsFrozen stopped) shop.workloads
frozen_iff_example = frozen_iff stopped shop

-- A claim that no workload mounts is never frozen.
orphan_test :
    (frozen stopped shop ≡ true) × (frozen stopped (record shop { workloads = claim ∷ [] }) ≡ false)
unfolding frozen
orphan_test = (refl, refl)
