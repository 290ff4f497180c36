-- ===== src/Pins/Unpinned.antt =====
-- Healed pods are pinned to no host, and what the message of the pins tells of.
use portage.Base.{
  String, ◌<>◌, ◌≡◌, ◌≢◌, refl, ◌↔◌, inl, inr, Bool, false, not, ◌&&◌, Option, none, some, List, [],
  ◌∷◌, keep, map, arith, Fallible, ok, Bool-cases, get, lookup,
}
use text.Mathlib.TextLemmas.{append-eq-nil_iff}
use portage.Kube.{PodSpec, Affinity}
use portage.Classify.Catalog.{Engine}
use portage.Heal.{heal_pod, drop_node_affinity}
use portage.Pins.{
  Pod, affinity_pin, hostname_pin, is_stray, is_volsync_mover_job, delete_pinned_dest_pods,
  delete_pinned_mover_jobs, first_message, pin_message, when_listed,
}

affinity_pin-drop : (a : Option Affinity) → affinity_pin (drop_node_affinity a) ≡ ""
affinity_pin-drop none = refl
affinity_pin-drop (some a) = refl

hostname_pin-heal_pod :
    (engines : List Engine) (spec : PodSpec) → hostname_pin (heal_pod engines spec).0 ≡ ""
unfolding hostname_pin heal_pod get lookup
hostname_pin-heal_pod engines spec = affinity_pin-drop spec.affinity

abbrev pub healed : List Engine → Pod → Pod
healed engines p = record p { spec = (heal_pod engines p.spec).0 }

is_stray-healed :
    (engines : List Engine) (nodes : List String) (p : Pod)
    → is_stray nodes (healed engines p) ≡ false
unfolding is_stray
is_stray-healed engines nodes p = rw (hostname_pin-heal_pod engines p.spec)

-- The pass deletes none of the pods whose specs are healed, on whatever nodes the destination has.
pub delete_pinned_dest_pods-healed :
    (engines : List Engine) (nodes : List String) (pods : List Pod)
    → delete_pinned_dest_pods nodes (ok (map (healed engines) pods)) ≡ []
unfolding delete_pinned_dest_pods
delete_pinned_dest_pods-healed engines nodes [] = refl
delete_pinned_dest_pods-healed engines nodes (p ∷ pods) =
    ground
      (arith, is_stray-healed engines nodes p, delete_pinned_dest_pods-healed engines nodes pods)

first_message-empty :
    (test : Pod → Bool) (tell : Pod → String) (ps : List Pod) (later : String)
    → ((p : Pod) → tell p ≢ "")
    → (first_message test tell ps later ≡ "")
      ↔ ((map (λ p. p.name) (keep test ps) ≡ []) × (later ≡ ""))
first_message-empty test tell [] later told = ground arith
first_message-empty test tell (p ∷ ps) later told = elim (Bool-cases (test p)) [
  | inl hit ↦ rw hit (ground (arith, told p))
  | inr miss ↦ rw miss (first_message-empty test tell ps later told)
]

job_told :
    (p : Pod)
    → "dest mover job " <> p.name <> " pinned to source-only node " <> hostname_pin p.spec ≢ ""
job_told p e = let first : ◌≡◌ {A = String} "dest mover job " "" = (append-eq-nil_iff.0 e).0 in cc

pod_told :
    (p : Pod) → "dest pod " <> p.name <> " pinned to source-only node " <> hostname_pin p.spec ≢ ""
pod_told p e = let first : ◌≡◌ {A = String} "dest pod " "" = (append-eq-nil_iff.0 e).0 in cc

-- The message is empty exactly if the pass would delete no job and no pod.
pub pin_message-eq-empty_iff :
    (nodes : List String) (jobs : List Pod) (pods : Fallible (List Pod))
    → (pin_message nodes jobs pods ≡ "") ↔ (
        (delete_pinned_mover_jobs nodes (ok jobs) ≡ []) × (delete_pinned_dest_pods nodes pods ≡ []))
unfolding pin_message delete_pinned_mover_jobs delete_pinned_dest_pods
pin_message-eq-empty_iff nodes jobs pods = ground (
  arith,
  first_message-empty (λ j. is_volsync_mover_job j.name && is_stray nodes j)
      (λ j. "dest mover job " <> j.name <> " pinned to source-only node " <> hostname_pin j.spec)
      jobs
      (first_message (λ p. not (is_volsync_mover_job p.name) && is_stray nodes p)
        (λ p. "dest pod " <> p.name <> " pinned to source-only node " <> hostname_pin p.spec)
        (when_listed pods) "")
      job_told,
  first_message-empty (λ p. not (is_volsync_mover_job p.name) && is_stray nodes p)
      (λ p. "dest pod " <> p.name <> " pinned to source-only node " <> hostname_pin p.spec)
      (when_listed pods) "" pod_told,
)
