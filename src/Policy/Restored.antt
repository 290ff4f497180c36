-- ===== src/Policy/Restored.antt =====
-- When the Policy reconciler starts a Restore by itself.
use portage.Base.{String, ◌≡◌, ◌↔◌, Bool, true, false, List, [], ◌∷◌, Some, any_iff, arith, keep}
use portage.Api.{is_stateless}
use portage.Classify.{Workload, Inventory, holds_state, stateful}
use portage.Policy.{Policy, auto_restore_name}
use portage.Policy.Actions.{
  Action, Got, not_found, creates, is_gone, needs_restore, auto_action, maybe_auto_restore,
}

-- A claim of the workload is gone from the destination.
abbrev pub LostClaim : (String → String → Got (Unit {0})) → Workload → Type 0
LostClaim claim w = Some (λ pvc. is_gone (claim w.namespace pvc) ≡ true) w.pvc_names

needs_restore_iff :
    (claim : String → String → Got (Unit {0})) (ws : List Workload)
    → (needs_restore claim (keep holds_state ws) ≡ true)
      ↔ Some (λ w. (is_stateless w.class ≡ false) × LostClaim claim w) ws
unfolding needs_restore
needs_restore_iff claim [] = ground arith
needs_restore_iff claim (w ∷ ws) = ground (
  arith,
  needs_restore_iff claim ws,
  any_iff (λ pvc. is_gone (claim w.namespace pvc)) w.pvc_names,
)

module _ (pol : Policy) (healthy : Bool) (inv : Inventory)
    (claim : String → String → Got (Unit {0})) (read : String → Got Action) where
  -- A pass creates a Restore Action exactly if the Policy asks for it, its backups are healthy, a
  -- stateful workload has lost a claim on the destination, and no Action of the reserved name is
  -- there; it is then the Restore Action of the Policy under that name.
  pub maybe_auto_restore_iff :
      (act : Action)
      → (maybe_auto_restore pol healthy inv claim read ≡ creates act) ↔ (
          (pol.restore_auto ≡ true)
          × (healthy ≡ true)
          × Some (λ w. (is_stateless w.class ≡ false) × LostClaim claim w) inv.workloads
          × (read (auto_restore_name pol.name) ≡ not_found)
          × (act ≡ auto_action pol))
  unfolding maybe_auto_restore stateful
  maybe_auto_restore_iff act = ground (arith, needs_restore_iff claim inv.workloads)
