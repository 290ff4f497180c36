-- ===== src/Heal/Pods.antt =====
-- What `PodSpec` of pkg/heal/heal.go leaves to fix, and what it reports.
use portage.Base.{
  String, ◌==◌, ◌≡◌, refl, ◌↔◌, inl, inr, ap, sym, ◌∙◌, Bool, true, false, not, Option, none, some,
  List, [], ◌∷◌, any, keep, is_empty, is_some, arith, Bool-cases, eq_iff,
}
use portage.Kube.{SecurityContext, Affinity, Toleration, PodSpec}
use portage.Classify.Catalog.{Engine}
use portage.Heal.{
  unique, unique_from, is_local, widens, strip_group, group_widens, pins_nodes, drop_node_affinity,
  postgres_pod, heal_pod,
}

keep_idem :
    (ts : List Toleration)
    → keep (λ t. not (is_local t)) (keep (λ t. not (is_local t)) ts)
      ≡ keep (λ t. not (is_local t)) ts
keep_idem [] = refl
keep_idem (t ∷ ts) = elim (Bool-cases (is_local t)) [
  | inl drop ↦ rw drop (keep_idem ts)
  | inr kept ↦ rw (kept, kept, keep_idem ts)
]

any-keep : (ts : List Toleration) → any is_local (keep (λ t. not (is_local t)) ts) ≡ false
any-keep [] = refl
any-keep (t ∷ ts) = elim (Bool-cases (is_local t)) [
  | inl drop ↦ rw drop (any-keep ts)
  | inr kept ↦ rw (kept, kept, any-keep ts)
]

strip_group_idem :
    (postgres : Bool) (sc : Option SecurityContext)
    → strip_group postgres (strip_group postgres sc) ≡ strip_group postgres sc
strip_group_idem postgres none = refl
strip_group_idem postgres (some sc) = elim (Bool-cases (widens postgres sc.fs_group)) [
  | inl wide ↦ rw wide
  | inr kept ↦ rw (kept, kept)
]

group_widens-strip_group :
    (postgres : Bool) (sc : Option SecurityContext)
    → group_widens postgres (strip_group postgres sc) ≡ false
group_widens-strip_group postgres none = refl
group_widens-strip_group postgres (some sc) = elim (Bool-cases (widens postgres sc.fs_group)) [
  | inl wide ↦ rw wide
  | inr kept ↦ rw (kept, kept)
]

drop_node_affinity_idem :
    (a : Option Affinity) → drop_node_affinity (drop_node_affinity a) ≡ drop_node_affinity a
drop_node_affinity_idem none = refl
drop_node_affinity_idem (some a) = refl

pins_nodes-drop : (a : Option Affinity) → pins_nodes (drop_node_affinity a) ≡ false
pins_nodes-drop none = refl
pins_nodes-drop (some a) = refl

keep-same : (ts : List Toleration) → any is_local ts ≡ false → keep (λ t. not (is_local t)) ts ≡ ts
keep-same [] h = refl
keep-same (t ∷ ts) h = elim (Bool-cases (is_local t)) [
  | inl drop ↦ ground arith
  | inr kept ↦ rw (kept, keep-same ts (rw kept at h))
]

strip_group-same :
    (postgres : Bool) (sc : Option SecurityContext)
    → group_widens postgres sc ≡ false
    → strip_group postgres sc ≡ sc
strip_group-same postgres none h = refl
strip_group-same postgres (some sc) h = rw h

is_some-none {ℓ} : {A : Type ℓ} (o : Option A) → is_some o ≡ false → o ≡ none
is_some-none none h = refl
is_some-none (some a) h = cc

drop-same : (a : Option Affinity) → pins_nodes a ≡ false → drop_node_affinity a ≡ a
drop-same none h = refl
drop-same (some a) h = rw (is_some-none a.node_affinity h)

is_empty-same {ℓ} : {A : Type ℓ} (xs : List A) → is_empty xs ≡ true → xs ≡ []
is_empty-same [] h = refl
is_empty-same (x ∷ xs) h = cc

unique_none : (ss : List String) → unique ss ≡ [] → ss ≡ []
unfolding unique unique_from
unique_none [] h = refl
unique_none (s ∷ ss) h = cc

-- No fix is named exactly if none is made.
record IsQuiet (postgres : Bool) (spec : PodSpec) : Type 0 where
  selector : is_empty spec.node_selector ≡ true
  node : (spec.node_name == "") ≡ true
  affinity : pins_nodes spec.affinity ≡ false
  tolerations : any is_local spec.tolerations ≡ false
  group : group_widens postgres spec.security_context ≡ false

module _ (engines : List Engine) (spec : PodSpec) where
  -- A healed pod needs no fix: healing it again changes and reports nothing.
  pub heal_pod-IsStable :
      heal_pod engines (heal_pod engines spec).0 ≡ ((heal_pod engines spec).0, [])
  unfolding heal_pod unique unique_from postgres_pod
  heal_pod-IsStable =
      let postgres = postgres_pod engines spec in
      rw (
        keep_idem spec.tolerations,
        any-keep spec.tolerations,
        strip_group_idem postgres spec.security_context,
        group_widens-strip_group postgres spec.security_context,
        drop_node_affinity_idem spec.affinity,
        pins_nodes-drop spec.affinity,
      )

  heal_pod-IsQuiet : (heal_pod engines spec).1 ≡ [] → IsQuiet (postgres_pod engines spec) spec
  unfolding heal_pod
  heal_pod-IsQuiet h =
      let none_named = unique_none _ h in
      record {
        selector = ground arith;
        node = ground arith;
        affinity = ground arith;
        tolerations = ground arith;
        group = ground arith;
      }

  IsQuiet-heal_pod : IsQuiet (postgres_pod engines spec) spec → (heal_pod engines spec).1 ≡ []
  unfolding heal_pod unique unique_from
  IsQuiet-heal_pod q = rw (q.selector, q.node, q.affinity, q.tolerations, q.group)

  -- A pod is healed without a report exactly if all that changed is the spread over zones.
  pub heal_pod-eq-nil_iff :
      ((heal_pod engines spec).1 ≡ [])
      ↔ ((heal_pod engines spec).0 ≡ record spec { topology_spread_constraints = [] })
  unfolding heal_pod
  heal_pod-eq-nil_iff = (
    λ h.
        let q = heal_pod-IsQuiet h in
        rw (
          is_empty-same spec.node_selector q.selector,
          (eq_iff spec.node_name "").0 q.node,
          drop-same spec.affinity q.affinity,
          keep-same spec.tolerations q.tolerations,
          strip_group-same (postgres_pod engines spec) spec.security_context q.group,
        ),
    λ same.
        let postgres = postgres_pod engines spec in
        IsQuiet-heal_pod (record {
          selector = ap (λ s. is_empty s.node_selector) (sym same);
          node = ap (λ s. s.node_name == "") (sym same);
          affinity = ap (λ s. pins_nodes s.affinity) (sym same) ∙ pins_nodes-drop spec.affinity;
          tolerations = ap (λ s. any is_local s.tolerations) (sym same) ∙ any-keep spec.tolerations;
          group =
              ap (λ s. group_widens postgres s.security_context) (sym same)
              ∙ group_widens-strip_group postgres spec.security_context;
        }),
  )
