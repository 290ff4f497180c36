-- ===== src/Restore/Advance.antt =====
-- pkg/restore/machine.go: the preflight and one step of the state machine. `none` is a panic, a
-- write to the nil map `facts.UsefulMessage`.
use mathlib.Core.Option
use portage.Base.{
  ℕ, suc, String, ◌<>◌, ◌==◌, Bool, false, not, ◌||◌, Option, none, some, List, [], ◌∷◌, Map, get,
  insert, if◌then◌else◌, has_prefix, nat_beq, or_zero,
}
use portage.Api.{
  WorkloadActionStatus, ActionStatus, ActionPhase, Time, seconds, is_stateless, or_pending, pending,
  preflight, quiescing, rehydrating, applying, waiting_ready, healing, attesting, succeeded, failed,
  rolled_back,
}
use portage.Actionphase.{skipped, probed, can_succeed}
use portage.Restore.{Facts, Result, again, final, seed_workloads, apply_facts}

-- The message of a workload that has no useful artifact.
unfoldable pub skip_message : String → String
skip_message told =
    let message = if told == "" then "no useful artifact" else told in
    if has_prefix message "skipped:" then message else "skipped: " <> message

-- `w.Class == ClassStateless` or `facts.Useful[w.Key]`
abbrev pub restorable : Map Bool → WorkloadActionStatus → Bool
restorable useful w = is_stateless w.class || get false w.key useful

-- How far the loop of `preflight` came: the count, the workloads seen and the messages.
pub record Preflight : Type 0 where
  pub count : ℕ
  pub workloads : List WorkloadActionStatus
  pub useful_message : Option (Map String)

abbrev pub push : WorkloadActionStatus → Preflight → Preflight
push w p = record p { workloads = w ∷ p.workloads }

unfoldable pub preflight_from :
    Map Bool → ℕ → Option (Map String) → List WorkloadActionStatus → Option Preflight
unfolding skip_message
preflight_from useful n told [] = some (record { count = n; workloads = []; useful_message = told })
preflight_from useful n none (w ∷ ws) =
    let counted = Option.map (push w) (preflight_from useful (suc n) none ws) in
    if restorable useful w then counted else none
preflight_from useful n (some told) (w ∷ ws) =
    let counted = Option.map (push w) (preflight_from useful (suc n) (some told) ws) in
    let message = skip_message (get "" w.key told) in
    let marked =
      Option.map (push (record w { message = message }))
        (preflight_from useful n (some (insert w.key message told)) ws) in
    if restorable useful w then counted else marked

abbrev pub verdict : Preflight → String
verdict p = if nat_beq p.count 0 then "no restorable workloads" else ""

-- `preflight`: its text, which is empty where it passes, and what it wrote.
unfoldable pub preflight_check : Facts → List WorkloadActionStatus → Option (String × Preflight)
unfolding preflight_from
preflight_check facts [] = some (
  "no workloads in inventory",
  record { count = 0; workloads = []; useful_message = facts.useful_message },
)
preflight_check facts (w ∷ ws) =
    Option.map (λ p. (verdict p, p)) (preflight_from facts.useful 0 facts.useful_message (w ∷ ws))

-- `waiting`: the key of the first workload that is not skipped and not `ok`, or the empty text.
unfoldable pub waiting : (WorkloadActionStatus → Bool) → List WorkloadActionStatus → String
waiting ok [] = ""
waiting ok (w ∷ ws) = if skipped w || ok w then waiting ok ws else w.key

-- The keys that are not empty, in order.
unfoldable pub artifact_ids : List WorkloadActionStatus → List String
artifact_ids [] = []
artifact_ids (w ∷ ws) = if w.key == "" then artifact_ids ws else w.key ∷ artifact_ids ws

unfoldable pub attest : List WorkloadActionStatus → Time → Result
attest ws now =
    let (ok, reason) = can_succeed ws in
    if ok
    then final succeeded "ready and class probes passed" ws (
        some (record {
          recorded_at = now;
          source = "controller";
          workloads = ws;
          artifact_ids = artifact_ids ws;
        }))
    else again waiting_ready reason ws (seconds 5)

-- The phases WaitingReady and Healing, and the end of Rehydrating and Applying.
unfoldable pub settle : List WorkloadActionStatus → Time → Result
unfolding attest
settle ws now =
    let unready = waiting (λ w. w.ready) ws in
    let unprobed = waiting probed ws in
    if not (unready == "")
    then again waiting_ready (unready <> " is not Ready") ws (seconds 5)
    else if not (unprobed == "")
    then again waiting_ready (unprobed <> " class probe has not passed") ws (seconds 5)
    else attest ws now

-- `w.Class == ClassStateless || facts.Rehydrated[w.Key]`
abbrev pub refilled : Map Bool → WorkloadActionStatus → Bool
refilled rehydrated w = is_stateless w.class || get false w.key rehydrated

-- The phases Rehydrating and Applying.
unfoldable pub rehydrate : Facts → List WorkloadActionStatus → Result
unfolding settle
rehydrate facts ws =
    let waits = waiting (refilled facts.rehydrated) ws in
    let told = get "" waits (or_zero [] facts.useful_message) in
    let message = "rehydrating " <> waits in
    if not (waits == "")
    then again rehydrating (if told == "" then message else message <> ": " <> told) ws (seconds 5)
    else settle ws facts.now

-- The phases Pending and Preflight, once the preflight has run.
unfoldable pub start : Facts → String × Preflight → Result
start facts (refusal, p) =
    if not (refusal == "")
    then final failed ("preflight: " <> refusal) p.workloads none
    else if facts.dry_run
    then final succeeded "dry-run preflight passed (no restore performed)" p.workloads (
        some (record {
          recorded_at = facts.now;
          source = "dry-run";
          workloads = p.workloads;
          artifact_ids = [];
        }))
    else again rehydrating "preflight passed" p.workloads (seconds 2)

-- One reconcile gives a result and leaves the messages, which the caller shares.
abbrev pub Outcome : Type 0
Outcome = Result × Option (Map String)

abbrev pub started : Facts → Option (String × Preflight) → Option Outcome
started facts none = none
started facts (some (refusal, p)) = some (start facts (refusal, p), p.useful_message)

-- The `switch` of `Advance`; the last clause is `default`.
unfoldable pub step :
    ActionPhase → ActionStatus → Facts → List WorkloadActionStatus → Option Outcome
unfolding preflight_check start rehydrate settle attest
step succeeded status facts ws =
    some (final succeeded status.message ws status.attestation, facts.useful_message)
step failed status facts ws =
    some (final failed status.message ws status.attestation, facts.useful_message)
step rolled_back status facts ws =
    some (final rolled_back status.message ws status.attestation, facts.useful_message)
step pending status facts ws = started facts (preflight_check facts ws)
step preflight status facts ws = started facts (preflight_check facts ws)
step quiescing status facts ws =
    some (again rehydrating "quiesced" ws (seconds 1), facts.useful_message)
step rehydrating status facts ws = some (rehydrate facts ws, facts.useful_message)
step applying status facts ws = some (rehydrate facts ws, facts.useful_message)
step waiting_ready status facts ws = some (settle ws facts.now, facts.useful_message)
step healing status facts ws = some (settle ws facts.now, facts.useful_message)
step attesting status facts ws = some (attest ws facts.now, facts.useful_message)
step _ status facts ws =
    some (again preflight "starting preflight" ws (seconds 1), facts.useful_message)

-- The workloads with what this reconcile observed of them.
unfoldable pub observed : ActionStatus → Facts → List WorkloadActionStatus
unfolding seed_workloads apply_facts
observed status facts = apply_facts facts (seed_workloads status.workloads facts.inventory)

-- `Advance`
unfoldable pub advance : ActionStatus → Facts → Option Outcome
unfolding step
advance status facts = step (or_pending status.phase) status facts (observed status facts)
