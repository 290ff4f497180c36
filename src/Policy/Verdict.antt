-- ===== src/Policy/Verdict.antt =====
-- The verdict of a Policy pass on the health of its backups.
use portage.Base.{
  ℕ, Bool, true, false, List, [], ◌∷◌, map, ◌≡◌, ◌↔◌, ◌⊎◌, refl, sym, ap, ◌∙◌, All, Some, arith,
  find_last, keep, length, ltb, is_empty, String, Map,
}
use portage.Api.{ArtifactHealth, is_stateless}
use portage.Classify.{Workload, Inventory, key, holds_state, stateful}
use portage.Backup.{healthy, is_useful, missing_from, by_key}
use portage.Backup.Health.{healthy-IsReport}
use portage.Policy.{
  policy_degraded, policy_unhealthy, PolicyStatus, item, for_health, verdict, judge,
}

-- A workload that keeps no state, or the last artifact under its key is useful.
abbrev pub HasCopy : List ArtifactHealth → Workload → Type 0
HasCopy artifacts w =
    (is_stateless w.class ≡ true)
    ⊎ (is_useful (find_last (λ a. a.workload) (key w) artifacts) ≡ true)

rows : List Workload → List Workload
rows ws = map for_health (map item ws)

All-rows :
    (artifacts : List ArtifactHealth) (ws : List Workload)
    → All (HasCopy artifacts) (rows ws) ↔ All (HasCopy artifacts) ws
unfolding rows key
All-rows artifacts [] = (λ h. h, λ h. h)
All-rows artifacts (w ∷ ws) =
    let rest = All-rows artifacts ws in (λ h. (h.0, rest.0 h.1), λ h. (h.0, rest.1 h.1))

length-keep-rows :
    (ws : List Workload) → length (keep holds_state (rows ws)) ≡ length (keep holds_state ws)
unfolding rows
length-keep-rows [] = refl
length-keep-rows (w ∷ ws) = ground (arith, length-keep-rows ws)

-- Where something is missing, there was something to look for.
missing-stateful :
    (m : Map ArtifactHealth) (ws : List Workload)
    → is_empty (missing_from m ws) ≡ false
    → ltb 0 (length ws) ≡ true
unfolding missing_from
missing-stateful m [] h = cc
missing-stateful m (w ∷ ws) h = ground arith

Some-keep_iff :
    (p : Workload → Bool) (ws : List Workload)
    → (ltb 0 (length (keep p ws)) ≡ true) ↔ Some (λ w. p w ≡ true) ws
Some-keep_iff p [] = ground arith
Some-keep_iff p (w ∷ ws) = ground (arith, Some-keep_iff p ws)

verdict_unhealthy :
    (items stateful unclassified : ℕ) (ok : Bool) (missing : List String)
    → (ok ≡ false → ltb 0 stateful ≡ true)
    → ((verdict items stateful unclassified ok missing).0 ≡ policy_unhealthy) ↔ (ok ≡ false)
unfolding verdict
verdict_unhealthy items stateful unclassified ok missing h = ground arith

verdict_degraded :
    (items stateful unclassified : ℕ) (ok : Bool) (missing : List String)
    → (ok ≡ false → ltb 0 stateful ≡ true)
    → ((verdict items stateful unclassified ok missing).0 ≡ policy_degraded)
      ↔ ((ok ≡ true) × (ltb 0 unclassified ≡ true))
unfolding verdict
verdict_degraded items stateful unclassified ok missing h = ground arith

module _ (generation : ℕ) (status : PolicyStatus) (inv : Inventory) where
  healthy-stateful :
      (healthy (record { namespaces = []; workloads = rows inv.workloads }) status.artifacts).0
        ≡ false
      → ltb 0 (length (keep holds_state inv.workloads)) ≡ true
  unfolding healthy stateful
  healthy-stateful h =
      ap (ltb 0) (sym (length-keep-rows inv.workloads))
      ∙ missing-stateful (by_key status.artifacts) (keep holds_state (rows inv.workloads)) h

  -- A pass finds a Policy healthy, as to its backups, exactly if every workload of the inventory keeps
  -- no state or the last artifact under its key is useful. The phase is Unhealthy exactly if it is
  -- not; Degraded exactly if it is, but a workload is unclassified. The inventory in the status has a
  -- row for each workload in order; the artifacts and the lag stay.
  pub judge-IsVerdict :
      ((judge generation status inv).backup_healthy ≡ true
        ↔ All (HasCopy status.artifacts) inv.workloads)
      × (((judge generation status inv).phase ≡ policy_unhealthy)
          ↔ ((judge generation status inv).backup_healthy ≡ false))
      × (((judge generation status inv).phase ≡ policy_degraded) ↔ (
          ((judge generation status inv).backup_healthy ≡ true)
          × Some (λ w. w.unclassified ≡ true) inv.workloads))
      × ((judge generation status inv).inventory ≡ map item inv.workloads)
      × ((judge generation status inv).artifacts ≡ status.artifacts)
      × ((judge generation status inv).replica_lag ≡ status.replica_lag)
  unfolding judge rows
  judge-IsVerdict =
      let report =
        (healthy-IsReport (record { namespaces = []; workloads = rows inv.workloads })
          status.artifacts).0 in
      let same = All-rows status.artifacts inv.workloads in
      let some_unclassified = Some-keep_iff (λ w. w.unclassified) inv.workloads in
      let degraded = verdict_degraded _ _ _ _ _ healthy-stateful in
      (
        (λ h. same.0 (report.0 h), λ h. report.1 (same.1 h)),
        verdict_unhealthy _ _ _ _ _ healthy-stateful,
        (
          λ h. ((degraded.0 h).0, some_unclassified.0 (degraded.0 h).1),
          λ h. degraded.1 (h.0, some_unclassified.1 h.1),
        ),
        refl,
        refl,
        refl,
      )
