-- ===== src/Scale/Tests.antt =====
-- A freeze of three replicas.
use portage.Base.{
  ℕ, String, ◌==◌, ◌≡◌, refl, true, none, some, Option, [], ◌∷◌, if◌then◌else◌, nat_text, lookup,
}
use portage.Scale.{Scaled, scale, scaled_to_zero, original_replicas, original_replicas_ann}
use portage.Scale.Freeze.{scale_all, original_replicas-scale}

abbrev running : Scaled
running = record { replicas = some 3; annotations = ("team", "shop") ∷ [] }

abbrev atoi : String → Option ℕ
atoi s = if s == "3" then some 3 else none

no_annotation : lookup original_replicas_ann running.annotations ≡ none
unfolding lookup
no_annotation = refl

atoi_reads : atoi (nat_text 3) ≡ some 3
unfolding nat_text
atoi_reads = refl

original_replicas-scale_example :
    original_replicas atoi (scale_all (0 ∷ []) (scale 0 running)).annotations ≡ 3
original_replicas-scale_example =
    original_replicas-scale atoi running 0 (0 ∷ []) no_annotation atoi_reads

freeze_test :
    (scaled_to_zero (scale 0 running) ≡ true)
    × ((scale 0 running).annotations ≡ ("team", "shop") ∷ (original_replicas_ann, "3") ∷ [])
unfolding scaled_to_zero scale
freeze_test = (refl, refl)
