-- ===== src/Restore/Refusal.antt =====
-- The preflight of a Restore Action: whom it skips, when it refuses, and when it panics.
use mathlib.Core.Option
use mathlib.Core.Option.{some-injective}
use text.Mathlib.TextLemmas.{append_assoc}
use mathlib.Core.Path.{subst}
use portage.Base.{
  ◌∙◌, ℕ, suc, ◌+◌, String, ◌<>◌, ◌≡◌, refl, ◌↔◌, ◌⊎◌, inl, inr, Bool, true, false, Option, some,
  none, List, [], ◌∷◌, map, All, Some, Map, keep, length, get, insert, has_prefix,
  has_prefix-append, arith, Bool-cases, nat_beq, ◌==◌, if◌then◌else◌,
}
use portage.Api.{
  WorkloadActionStatus, ActionStatus, ActionPhase, unset, pending, preflight, failed, or_pending,
}
use portage.Actionphase.{skipped}
use portage.Restore.{Facts, Result}
use portage.Restore.Advance.{
  skip_message, restorable, Preflight, push, preflight_from, preflight_check, verdict, start,
  started, step, observed, advance,
}

prefixed : (message : String) → has_prefix ("skipped: " <> message) "skipped:" ≡ true
prefixed message =
    rw (append_assoc "skipped:" " " message) (has_prefix-append "skipped:" (" " <> message))

-- The message of a workload without a useful artifact says that it is skipped.
add_skip : String → String
add_skip message = if has_prefix message "skipped:" then message else "skipped: " <> message

add_skip-IsSkip : (message : String) → has_prefix (add_skip message) "skipped:" ≡ true
unfolding add_skip
add_skip-IsSkip message = elim (Bool-cases (has_prefix message "skipped:")) [
  | inl yet ↦ rw yet yet
  | inr not_yet ↦ rw not_yet (prefixed message)
]

skip_message-IsSkip : (told : String) → has_prefix (skip_message told) "skipped:" ≡ true
unfolding skip_message add_skip
skip_message-IsSkip told = add_skip-IsSkip (if told == "" then "no useful artifact" else told)

-- What a preflight that started from `n` made of the workloads `ws`.
pub record IsSorted (useful : Map Bool) (n : ℕ) (ws : List WorkloadActionStatus) (p : Preflight)
    : Type 0 where
  pub counted : p.count ≡ n + length (keep (restorable useful) ws)
  pub same_keys : map (λ w. w.key) p.workloads ≡ map (λ w. w.key) ws
  pub same_classes : map (λ w. w.class) p.workloads ≡ map (λ w. w.class) ws
  pub split : All (λ w. (restorable useful w ≡ true) ⊎ (skipped w ≡ true)) p.workloads

module _ (useful : Map Bool) where
  IsSorted-counted :
      {n : ℕ} {w : WorkloadActionStatus} {ws : List WorkloadActionStatus} {q : Preflight}
      → restorable useful w ≡ true
      → IsSorted useful (suc n) ws q
      → IsSorted useful n (w ∷ ws) (push w q)
  IsSorted-counted fit h = ground arith

  IsSorted-marked :
      {n : ℕ} {w : WorkloadActionStatus} {ws : List WorkloadActionStatus} {q : Preflight}
      (message : String)
      → restorable useful w ≡ false
      → has_prefix message "skipped:" ≡ true
      → IsSorted useful n ws q
      → IsSorted useful n (w ∷ ws) (push (record w { message = message }) q)
  unfolding skipped
  IsSorted-marked message unfit told h = ground arith

  sort :
      (n : ℕ) (told : Option (Map String)) (ws : List WorkloadActionStatus) (p : Preflight)
      → preflight_from useful n told ws ≡ some p
      → IsSorted useful n ws p
  unfolding preflight_from
  sort n told [] p e = ground arith
  sort n none (w ∷ ws) p e = elim (Bool-cases (restorable useful w)) [
    | inl fit ↦
        let (q, eq, ep) = (Option.map-eq-some_iff _ _).0 (rw (fit, preflight_from) at e) in
        rw (← ep) (IsSorted-counted fit (sort (suc n) none ws q eq))
    | inr unfit ↦ ground arith
  ]
  sort n (some told) (w ∷ ws) p e = elim (Bool-cases (restorable useful w)) [
    | inl fit ↦
        let (q, eq, ep) = (Option.map-eq-some_iff _ _).0 (rw (fit, preflight_from) at e) in
        rw (← ep) (IsSorted-counted fit (sort (suc n) (some told) ws q eq))
    | inr unfit ↦
        let (q, eq, ep) = (Option.map-eq-some_iff _ _).0 (rw (unfit, preflight_from) at e) in
        rw (← ep) (
          IsSorted-marked (skip_message (get "" w.key told)) unfit
            (skip_message-IsSkip (get "" w.key told)) (sort n _ ws q eq))
  ]

  preflight_from-eq-none_iff :
      (n : ℕ) (told : Option (Map String)) (ws : List WorkloadActionStatus)
      → (preflight_from useful n told ws ≡ none)
        ↔ ((told ≡ none) × Some (λ w. restorable useful w ≡ false) ws)
  unfolding preflight_from
  preflight_from-eq-none_iff n told [] = ground arith
  preflight_from-eq-none_iff n none (w ∷ ws) =
      ground (arith, preflight_from-eq-none_iff (suc n) none ws)
  preflight_from-eq-none_iff n (some told) (w ∷ ws) =
      let message = skip_message (get "" w.key told) in
      ground (
        arith,
        preflight_from-eq-none_iff (suc n) (some told) ws,
        preflight_from-eq-none_iff n (some (insert w.key message told)) ws,
      )

-- The phases in which `Advance` runs the preflight.
abbrev pub is_start : ActionPhase → Bool
is_start unset = true
is_start pending = true
is_start preflight = true
is_start _ = false

preflight_check-eq-none_iff :
    (facts : Facts) (ws : List WorkloadActionStatus)
    → (preflight_check facts ws ≡ none)
      ↔ ((facts.useful_message ≡ none) × Some (λ w. restorable facts.useful w ≡ false) ws)
unfolding preflight_check
preflight_check-eq-none_iff facts [] = ground arith
preflight_check-eq-none_iff facts (w ∷ ws) =
    ground (arith, preflight_from-eq-none_iff facts.useful 0 facts.useful_message (w ∷ ws))

step-eq-none_iff :
    (phase : ActionPhase) (status : ActionStatus) (facts : Facts) (ws : List WorkloadActionStatus)
    → (step (or_pending phase) status facts ws ≡ none)
      ↔ ((is_start phase ≡ true) × (preflight_check facts ws ≡ none))
unfolding step
step-eq-none_iff pending status facts ws = ground arith
step-eq-none_iff _ status facts ws = ground arith

-- A reconcile panics exactly when it runs the preflight, the map of messages is nil, and some
-- workload that is not stateless has no useful artifact: its message is written to the nil map.
pub advance-eq-none_iff :
    (status : ActionStatus) (facts : Facts)
    → (advance status facts ≡ none) ↔ (
        (is_start status.phase ≡ true)
        × (facts.useful_message ≡ none)
        × Some (λ w. restorable facts.useful w ≡ false) (observed status facts))
unfolding advance
advance-eq-none_iff status facts = ground (
  arith,
  step-eq-none_iff status.phase status facts (observed status facts),
  preflight_check-eq-none_iff facts (observed status facts),
)

step_of_start :
    (phase : ActionPhase) (status : ActionStatus) (facts : Facts) (ws : List WorkloadActionStatus)
    → is_start phase ≡ true
    → started facts (preflight_check facts ws) ≡ step (or_pending phase) status facts ws
unfolding step
step_of_start pending status facts ws first = refl
step_of_start _ status facts ws first = ground arith

-- What a preflight decides about the observed workloads `ws`.
pub record IsPreflighted (useful : Map Bool) (ws : List WorkloadActionStatus) (r : Result)
    : Type 0 where
  pub refused : (r.phase ≡ failed) ↔ (length (keep (restorable useful) ws) ≡ 0)
  pub same_keys : map (λ w. w.key) r.workloads ≡ map (λ w. w.key) ws
  pub split : All (λ w. (restorable useful w ≡ true) ⊎ (skipped w ≡ true)) r.workloads

verdict-IsPreflighted :
    (facts : Facts) (ws : List WorkloadActionStatus) (p : Preflight)
    → IsSorted facts.useful 0 ws p
    → IsPreflighted facts.useful ws (start facts (verdict p, p))
unfolding start
verdict-IsPreflighted facts ws p h = elim (Bool-cases (nat_beq p.count 0)) [
  | inl zero_fit ↦ rw zero_fit (ground arith)
  | inr some_fit ↦ rw some_fit (ground arith)
]

start-IsPreflighted :
    (facts : Facts) (ws : List WorkloadActionStatus) (o : String × Preflight)
    → preflight_check facts ws ≡ some o
    → IsPreflighted facts.useful ws (start facts o)
unfolding preflight_check
start-IsPreflighted facts [] o e =
    subst (λ o. IsPreflighted facts.useful [] (start facts o)) (some-injective _ _ e)
      (unfold start in ground arith)
start-IsPreflighted facts (w ∷ ws) o e =
    let (p, sorted, same) = (Option.map-eq-some_iff _ _).0 e in
    rw (← same) (
      verdict-IsPreflighted facts (w ∷ ws) p
        (sort facts.useful 0 facts.useful_message (w ∷ ws) p sorted))

started-IsPreflighted :
    (facts : Facts) (ws : List WorkloadActionStatus) (r : Result) (told : Option (Map String))
    (o : Option (String × Preflight))
    → preflight_check facts ws ≡ o
    → started facts o ≡ some (r, told)
    → IsPreflighted facts.useful ws r
started-IsPreflighted facts ws r told none checked e = cc
started-IsPreflighted facts ws r told (some o) checked e =
    let same : start facts o ≡ r = cc in
    subst (IsPreflighted facts.useful ws) same (start-IsPreflighted facts ws o checked)

-- A reconcile in phase Pending or Preflight goes to Failed exactly when no observed workload is
-- stateless or has a useful artifact. Otherwise and then too, every workload of the result is
-- stateless, has a useful artifact, or is marked as skipped, and the workloads are the observed
-- ones, by key and in order.
pub advance-IsPreflighted :
    (status : ActionStatus) (facts : Facts) (r : Result) (told : Option (Map String))
    → is_start status.phase ≡ true
    → advance status facts ≡ some (r, told)
    → IsPreflighted facts.useful (observed status facts) r
unfolding advance
advance-IsPreflighted status facts r told first e =
    started-IsPreflighted facts (observed status facts) r told _ refl
      (step_of_start status.phase status facts (observed status facts) first ∙ e)
