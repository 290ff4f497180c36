-- ===== src/Scale/Freeze.antt =====
-- A freeze can be undone.
use portage.Base.{
  ℕ, String, ◌≡◌, none, some, Option, List, [], ◌∷◌, lookup, get, lookup-insert, nat_text,
}
use portage.Scale.{Scaled, scale, original_replicas, original_replicas_ann, current}

-- Scaling to zero and however often again keeps the count from before the first time.
unfoldable pub scale_all : List ℕ → Scaled → Scaled
unfolding scale
scale_all [] o = o
scale_all (n ∷ ns) o = scale_all ns (scale n o)

scale-remembers :
    (n : ℕ) (o : Scaled)
    → lookup original_replicas_ann o.annotations ≡ none
    → lookup original_replicas_ann (scale n o).annotations ≡ some (nat_text (current o.replicas))
unfolding scale
scale-remembers n o absent = rw absent (
    lookup-insert original_replicas_ann (nat_text (current o.replicas)) o.annotations
      original_replicas_ann)

scale-keeps :
    (n : ℕ) (o : Scaled) (t : String)
    → lookup original_replicas_ann o.annotations ≡ some t
    → lookup original_replicas_ann (scale n o).annotations ≡ some t
unfolding scale
scale-keeps n o t present = rw present present

scale_all-keeps :
    (ns : List ℕ) (o : Scaled) (t : String)
    → lookup original_replicas_ann o.annotations ≡ some t
    → lookup original_replicas_ann (scale_all ns o).annotations ≡ some t
unfolding scale_all
scale_all-keeps [] o t present = present
scale_all-keeps (n ∷ ns) o t present = scale_all-keeps ns (scale n o) t (scale-keeps n o t present)

-- Once a workload that had no annotation was scaled, however often and to whatever counts, its
-- original count is the one from before the first time, if Atoi reads that count as Itoa writes it.
pub original_replicas-scale :
    (atoi : String → Option ℕ) (o : Scaled) (n : ℕ) (ns : List ℕ)
    → lookup original_replicas_ann o.annotations ≡ none
    → atoi (nat_text (current o.replicas)) ≡ some (current o.replicas)
    → original_replicas atoi (scale_all ns (scale n o)).annotations ≡ current o.replicas
unfolding original_replicas get
original_replicas-scale atoi o n ns absent reads = rw (
  scale_all-keeps ns (scale n o) (nat_text (current o.replicas)) (scale-remembers n o absent),
  reads,
)
