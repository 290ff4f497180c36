-- ===== src/Transform/Claim.antt =====
-- What `PVC` of pkg/transform/sanitize.go leaves of a claim.
use portage.Base.{
  String, ◌==◌, ◌≡◌, ◌≢◌, ap, refl, inl, inr, Bool, not, Option, none, some, [], ◌∷◌, if◌then◌else◌,
  keep, Map, lookup, arith, eq_iff, Bool-cases, Option-cases,
}
use portage.Kube.{PersistentVolumeClaim}
use portage.Transform.{
  Options, contains, drop_label_keys, drops_annotation, filter_anns, filter_labels, map_sc,
  map_class, pvc,
}

lookup-keep :
    (drops : String → Bool) (m : Map String) (key : String)
    → lookup key (keep (λ (k, v). not (drops k)) m) ≡ (if drops key then none else lookup key m)
unfolding lookup
lookup-keep drops [] key = ground arith
lookup-keep drops ((k, v) ∷ m) key = elim (Bool-cases (k == key)) [
  | inl same ↦
      let one = ap drops ((eq_iff k key).0 same) in
      elim (Bool-cases (drops k)) [
        | inl dropped ↦ rw (dropped, lookup-keep drops m key) (ground (arith, one))
        | inr kept ↦ rw (kept, same) (ground (arith, one))
      ]
  | inr other ↦ elim (Bool-cases (drops k)) [
    | inl dropped ↦ rw (dropped, other) (lookup-keep drops m key)
    | inr kept ↦ rw (kept, other) (lookup-keep drops m key)
  ]
]

-- The class that a claim asks for on the other cluster, given that of the source.
pub data FitsClass (opt : Options) : Option String → Option String → Type 0 where
  mapped :
      (src dst : String)
      → lookup src opt.storage_class_map ≡ some dst
      → FitsClass opt (some src) (some dst)
  fallback :
      (src : String)
      → lookup src opt.storage_class_map ≡ none
      → opt.default_storage_class ≢ ""
      → FitsClass opt (some src) (some opt.default_storage_class)
  kept :
      (src : String)
      → lookup src opt.storage_class_map ≡ none
      → opt.default_storage_class ≡ ""
      → FitsClass opt (some src) (some src)
  given : opt.default_storage_class ≢ "" → FitsClass opt none (some opt.default_storage_class)
  absent : opt.default_storage_class ≡ "" → FitsClass opt none none

map_class-FitsClass :
    (class : Option String) (opt : Options) → FitsClass opt class (map_class class opt)
unfolding map_sc
map_class-FitsClass none opt = elim (Bool-cases (opt.default_storage_class == "")) [
  | inl empty ↦ rw empty (absent (ground (arith, eq_iff opt.default_storage_class "")))
  | inr named ↦ rw named (given (ground (arith, eq_iff opt.default_storage_class "")))
]
map_class-FitsClass (some src) opt = elim (Option-cases (lookup src opt.storage_class_map)) [
  | inr (dst, eq) ↦ rw eq (mapped src dst eq)
  | inl eq ↦ elim (Bool-cases (opt.default_storage_class == "")) [
    | inl empty ↦ rw (eq, empty) (kept src eq (ground (arith, eq_iff opt.default_storage_class "")))
    | inr named ↦
        rw (eq, named) (fallback src eq (ground (arith, eq_iff opt.default_storage_class "")))
  ]
]

-- What a claim is for another cluster.
pub record IsPortable (claim : PersistentVolumeClaim) (opt : Options) (out : PersistentVolumeClaim)
    : Type 0 where
  pub same : (out.namespace ≡ claim.namespace) × (out.name ≡ claim.name)
  pub labels :
      (key : String)
      → lookup key out.labels
        ≡ (if contains drop_label_keys key then none else lookup key claim.labels)
  pub annotations :
      (key : String)
      → lookup key out.annotations
        ≡ (if drops_annotation key then none else lookup key claim.annotations)
  pub class : FitsClass opt claim.storage_class_name out.storage_class_name
  pub unbound : (out.volume_name ≡ "") × (out.data_source ≡ none) × (out.data_source_ref ≡ none)
  pub unowned : (out.owner_references ≡ []) × (out.uid ≡ "") × (out.resource_version ≡ "")

-- `PVC` keeps the name of the claim, drops exactly the labels and annotations of the source cluster,
-- asks for the class that the map gives to the old one, else for the default, else for the old one,
-- and leaves no volume, source or owner.
pub pvc-IsPortable :
    (claim : PersistentVolumeClaim) (opt : Options) → IsPortable claim opt (pvc claim opt)
unfolding pvc filter_labels filter_anns
pvc-IsPortable claim opt = record {
  same = (refl, refl);
  labels = lookup-keep (contains drop_label_keys) claim.labels;
  annotations = lookup-keep drops_annotation claim.annotations;
  class = map_class-FitsClass claim.storage_class_name opt;
  unbound = (refl, refl, refl);
  unowned = (refl, refl, refl);
}
