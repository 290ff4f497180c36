-- ===== src/Classify/Pods.antt =====
-- pkg/classify/walk.go: how one controller becomes a workload, and which claims are a mover's scratch.
use portage.Base.{
  ℕ, zero, suc, ◌+◌, String, ◌<>◌, ◌==◌, Bool, true, false, ◌&&◌, ◌||◌, Option, none, some, List,
  [], ◌∷◌, ◌++◌, if◌then◌else◌, map, any, is_empty, has_prefix, has_suffix, get, nat_text,
}
use portage.Api.{stateless, generic_pvc}
use portage.Kube.{
  Container, SecurityContext, PodSpec, OwnerReference, PersistentVolumeClaim, StatefulSet,
}
use portage.Classify.{Workload}
use portage.Classify.Catalog.{Engine, match_image}

-- `Namespaces`
unfoldable pub namespaces : List String → String → List String
namespaces [] default = (if default == "" then "default" else default) ∷ []
namespaces (ns ∷ nss) default = ns ∷ nss

abbrev images_of : List Container → List String
images_of = map (λ c. c.image)

-- `podImages`
unfoldable pub pod_images : PodSpec → List String
pod_images spec = images_of spec.init_containers ++ images_of spec.containers

-- `matchImages`: the first engine that some image matches.
unfoldable pub match_images : List Engine → List String → Option Engine
match_images engines [] = none
match_images engines (image ∷ images) =
    let rest = match_images engines images in
    elim (match_image engines image) [ some e ↦ some e | none ↦ rest ]

-- Is a name among those seen?
abbrev pub seen : String → List String → Bool
seen n = any (λ m. m == n)

-- Appends a name that was not seen.
abbrev pub add_new : List String → String → List String
add_new names n = if seen n names then names else names ++ n ∷ []

-- `podPVCs`: each claim that a volume mounts, once.
unfoldable pub pod_pvcs_from : List String → List (Option String) → List String
pod_pvcs_from names [] = names
pod_pvcs_from names (none ∷ vs) = pod_pvcs_from names vs
pod_pvcs_from names (some n ∷ vs) = pod_pvcs_from (add_new names n) vs

unfoldable pub pod_pvcs : PodSpec → List String
unfolding pod_pvcs_from
pod_pvcs spec = pod_pvcs_from [] spec.volumes

-- The claim of a template for one replica, `<template>-<sts>-<ordinal>`.
unfoldable pub realized : String → String → ℕ → String
realized vct sts i = vct <> "-" <> sts <> "-" <> nat_text i

-- The inner loop of `stsPVCs`: `left` more ordinals from `i`.
unfoldable pub add_ordinals : String → String → ℕ → ℕ → List String → List String
unfolding realized
add_ordinals vct sts i zero names = names
add_ordinals vct sts i (suc left) names =
    add_ordinals vct sts (i + 1) left (add_new names (realized vct sts i))

unfoldable pub add_templates : String → ℕ → List String → List String → List String
unfolding add_ordinals
add_templates sts replicas [] names = names
add_templates sts replicas (vct ∷ vcts) names =
    add_templates sts replicas vcts (add_ordinals vct sts 0 replicas names)

-- One replica where none is set, or where the number is not positive.
abbrev pub replicas_of : Option ℕ → ℕ
replicas_of none = 1
replicas_of (some zero) = 1
replicas_of (some (suc n)) = suc n

-- `stsPVCs`
unfoldable pub sts_pvcs : StatefulSet → List String
unfolding add_templates
sts_pvcs sts =
    add_templates sts.name (replicas_of sts.replicas) sts.volume_claim_templates
      (pod_pvcs sts.template)

-- The first user id that a container asks for.
unfoldable pub container_user : List Container → Option ℕ
container_user [] = none
container_user (c ∷ cs) =
    let rest = container_user cs in elim c.run_as_user [ some uid ↦ some uid | none ↦ rest ]

abbrev group_of : Option SecurityContext → Option ℕ
group_of none = none
group_of (some sc) = sc.fs_group

abbrev user_of : Option SecurityContext → Option ℕ
user_of none = none
user_of (some sc) = sc.run_as_user

abbrev or_else_user : Option ℕ → List Container → Option ℕ
or_else_user (some uid) cs = some uid
or_else_user none cs = container_user cs

-- The engine, or a volume of no known engine, or neither.
abbrev pub classed : Option Engine → Bool → Workload → Workload
classed (some e) _ w = record w { engine = e.name; class = e.class }
classed none true w = w
classed none false w = record w { class = generic_pvc }

-- `fromPodOwner`
unfoldable pub from_pod_owner :
    List Engine → String → String → String → String → PodSpec → List String → Workload
unfolding container_user pod_images match_images
from_pod_owner engines ns kind api_version name spec pvcs =
    classed (match_images engines (pod_images spec)) (is_empty pvcs) (record {
      namespace = ns;
      name = name;
      kind = kind;
      api_version = api_version;
      class = stateless;
      engine = "";
      images = pod_images spec;
      pvc_names = pvcs;
      unclassified = false;
      fs_group = group_of spec.security_context;
      run_as_user = or_else_user (user_of spec.security_context) spec.containers;
    })

-- `ScratchPVCName`
unfoldable pub scratch_pvc_name : String → Bool
scratch_pvc_name name =
    if name == ""
    then false
    else has_prefix name "volsync-src-"
      || has_prefix name "volsync-dst-"
      || (has_prefix name "volsync-" && has_suffix name "-cache")

-- The test of `IsMoverScratchPVC` on an owner.
abbrev pub is_volsync_owner : OwnerReference → Bool
is_volsync_owner o =
    has_prefix o.api_version "volsync.backube/"
    && (o.kind == "ReplicationSource" || o.kind == "ReplicationDestination")

-- `IsMoverScratchPVC`
unfoldable pub is_mover_scratch_pvc : PersistentVolumeClaim → Bool
unfolding scratch_pvc_name
is_mover_scratch_pvc pvc =
    get "" "app.kubernetes.io/created-by" pvc.labels == "volsync"
    || any is_volsync_owner pvc.owner_references
    || scratch_pvc_name pvc.name
