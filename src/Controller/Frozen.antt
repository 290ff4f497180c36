-- ===== src/Controller/Frozen.antt =====
-- internal/controller/action_controller.go: when a cutover takes the source to be frozen, the part of
-- `runCutover` in phase Quiescing.
use portage.Base.{
  ◌==◌, ◌≡◌, ◌↔◌, ◌⊎◌, inl, inr, Bool, true, false, not, ◌||◌, List, [], ◌∷◌, if◌then◌else◌, keep,
  All, arith, Fallible, ok, err, Bool-cases,
}
use portage.Api.{WorkloadClass, cluster_objects}
use portage.Classify.{Workload, Inventory, stateful, holds_state}
use portage.Scale.{Scaled, scaled_to_zero}

abbrev is_graph_class : WorkloadClass → Bool
is_graph_class cluster_objects = true
is_graph_class _ = false

-- `clusterobjects.Is`
unfoldable pub is_object_graph : Workload → Bool
is_object_graph w = is_graph_class w.class || w.kind == "ObjectGraph"

abbrev pub read_zero : Fallible Scaled → Bool
read_zero (err e) = false
read_zero (ok o) = scaled_to_zero o

abbrev pub can_scale : Workload → Bool
can_scale w = w.kind == "StatefulSet" || w.kind == "Deployment"

-- `ScaledToZero`: `read` stands for the reads of the source cluster.
unfoldable pub workload_scaled_to_zero : (Workload → Fallible Scaled) → Workload → Bool
unfolding scaled_to_zero
workload_scaled_to_zero read w = if can_scale w then read_zero (read w) else false

-- The loop of phase Quiescing.
unfoldable pub frozen_from : (Workload → Fallible Scaled) → List Workload → Bool
unfolding is_object_graph workload_scaled_to_zero
frozen_from read [] = true
frozen_from read (w ∷ ws) =
    let rest = frozen_from read ws in
    if is_object_graph w then rest else if not (workload_scaled_to_zero read w) then false else rest

unfoldable pub frozen : (Workload → Fallible Scaled) → Inventory → Bool
unfolding frozen_from stateful
frozen read inv = frozen_from read (stateful inv)

-- A workload that holds up no freeze: it keeps no state, is the object graph, or is a StatefulSet or
-- a Deployment that was read with no replicas.
abbrev pub IsFrozen : (Workload → Fallible Scaled) → Workload → Type 0
IsFrozen read w =
    (holds_state w ≡ false)
    ⊎ ((is_object_graph w ≡ true) ⊎ ((can_scale w ≡ true) × (read_zero (read w) ≡ true)))

frozen_from-keep :
    (read : Workload → Fallible Scaled) (ws : List Workload)
    → (frozen_from read (keep holds_state ws) ≡ true) ↔ All (IsFrozen read) ws
unfolding frozen_from workload_scaled_to_zero
frozen_from-keep read [] = ground arith
frozen_from-keep read (w ∷ ws) = elim (Bool-cases (holds_state w)) [
  | inl state ↦ rw state (ground (arith, frozen_from-keep read ws))
  | inr none_held ↦ rw none_held (ground (arith, frozen_from-keep read ws))
]

-- The source counts as frozen exactly if every workload of the inventory keeps no state, is the object
-- graph, or is a StatefulSet or a Deployment that was read with no replicas.
pub frozen_iff :
    (read : Workload → Fallible Scaled) (inv : Inventory)
    → (frozen read inv ≡ true) ↔ All (IsFrozen read) inv.workloads
unfolding frozen
frozen_iff read inv = frozen_from-keep read inv.workloads
