-- ===== src/Controller/Replicate/Requeue.antt =====
-- When a live replica is looked at again.
use portage.Base.{
  String, ◌≡◌, refl, ◌↔◌, Bool, true, false, arith, Fallible, ok, err, i64_lt, i64_le,
}
use portage.Api.{Duration, seconds, catching_up}
use portage.Classify.{Inventory}
use portage.Movers.{Registry}
use portage.Restore.{Result}
use portage.Controller.Failover.{Overrides}
use portage.Controller.Replicate.{
  Answers, Step, clamped, replicate_requeue, replicate_all, conclude, run_replicate,
}

-- More than nothing and no more than 15 seconds, as int64.
abbrev pub IsPrompt : Duration → Type 0
IsPrompt d = (i64_lt 0 d ≡ true) × (i64_le d (seconds 15) ≡ true)

clamped-IsPrompt : (d : Fallible Duration) → IsPrompt (clamped d)
unfolding i64_lt i64_le
clamped-IsPrompt (err e) = (refl, refl)
clamped-IsPrompt (ok d) = ground arith

replicate_requeue-IsPrompt :
    (parse : String → Fallible Duration) (rpo : String) → IsPrompt (replicate_requeue parse rpo)
unfolding replicate_requeue
replicate_requeue-IsPrompt parse rpo = ground (arith, clamped-IsPrompt (parse rpo))

module _ (movers : Registry) (overrides : Overrides) (a : Answers) where
  -- An end, or a wait of at most 15 seconds.
  abbrev pub IsPaced : Result → Type 0
  IsPaced r =
      ((r.terminal ≡ false) ↔ (r.phase ≡ catching_up))
      × (r.terminal ≡ false → IsPrompt r.requeue_after)

  conclude-IsPaced :
      (dry_run : Bool) (d : Duration) (step : Step)
      → IsPrompt d
      → IsPaced (conclude movers overrides a dry_run d step)
  conclude-IsPaced dry_run d step prompt = ground arith

  -- A reconcile of a live replica either ends the Action or leaves it in phase CatchingUp, to be
  -- taken up again after more than nothing and at most 15 seconds, whatever text stands as the RPO
  -- of the Policy and whatever duration `time.ParseDuration` reads of it, negative or overlong.
  pub run_replicate-IsPaced :
      (dry_run : Bool) (rpo : String) (inv : Inventory)
      → IsPaced (run_replicate movers overrides a dry_run rpo inv)
  unfolding run_replicate
  run_replicate-IsPaced dry_run rpo inv =
      conclude-IsPaced dry_run (replicate_requeue a.parse rpo)
        (replicate_all movers overrides a inv.workloads) (replicate_requeue-IsPrompt a.parse rpo)
