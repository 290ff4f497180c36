-- ===== src/Heal/Claims.antt =====
-- What `PVC` of pkg/heal/heal.go does to a claim.
use portage.Base.{
  ◌==◌, ◌≡◌, refl, inl, inr, Bool, true, none, if◌then◌else◌, Bool-cases, ◌∙◌, lookup,
  lookup-delete,
}
use portage.Kube.{PersistentVolumeClaim}
use portage.Transform.{Options, pvc, contains, drops_annotation}
use portage.Transform.Claim.{pvc-IsPortable}
use portage.Heal.{heal_pvc, selected_node, zone}

abbrev is_bound : PersistentVolumeClaim → Bool
is_bound claim = claim.phase == "Bound"

-- A claim that no node and no zone pins, and that is still bound to its volume if it was.
pub record IsUnpinned (claim out : PersistentVolumeClaim) : Type 0 where
  node : lookup selected_node out.annotations ≡ none
  zone : lookup zone out.labels ≡ none
  phase : out.phase ≡ claim.phase
  volume : out.volume_name ≡ (if is_bound claim then claim.volume_name else "")
  name : (out.namespace ≡ claim.namespace) × (out.name ≡ claim.name)

drops_node : drops_annotation selected_node ≡ true
unfolding drops_annotation contains
drops_node = refl

drops_zone : contains portage.Transform.drop_label_keys zone ≡ true
unfolding contains
drops_zone = refl

-- A healed claim names no selected node and no zone, keeps its name and its phase, and keeps its
-- volume exactly if it is bound.
pub heal_pvc-IsUnpinned :
    (claim : PersistentVolumeClaim) (opt : Options) → IsUnpinned claim (heal_pvc claim opt).0
unfolding heal_pvc
heal_pvc-IsUnpinned claim opt = elim (Bool-cases (is_bound claim)) [
  | inl bound ↦ rw bound (record {
    node = lookup-delete selected_node claim.annotations selected_node;
    zone = lookup-delete zone claim.labels zone;
    phase = refl;
    volume = rw bound;
    name = (refl, refl);
  })
  | inr free ↦
      let portable = pvc-IsPortable claim opt in
      rw free (record {
        node = portable.annotations selected_node ∙ rw drops_node;
        zone = portable.labels zone ∙ rw drops_zone;
        phase = refl;
        volume = rw free (portable.unbound.0);
        name = portable.same;
      })
]
