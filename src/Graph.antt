-- ===== src/Graph.antt =====
-- pkg/clusterobjects: the graph of API objects that is copied between clusters. This module has the
-- kinds of resources and the patterns that exclude them (exclude.go).
pub mod Discover
pub mod Sync
pub mod Listing
mod Tests
use portage.Base.{
  ℕ, String, ◌==◌, ◌<>◌, Bool, true, false, not, ◌&&◌, ◌||◌, Option, none, some, List, [], ◌∷◌,
  ◌++◌, map, if◌then◌else◌, any, codes, lower_code, same, ends_with, drop_last, trim_space, split,
  cut, str_contains, equal_fold,
}

-- `schema.GroupVersionResource` with the scope of `Ref`.
pub record Ref : Type 0 where
  pub group : String
  pub version : String
  pub resource : String
  pub namespaced : Bool

-- `excludePat`
pub record ExcludePat : Type 0 where
  pub group : String
  pub version : String
  pub kind : String
  pub resource : String
  pub crd_name : String

abbrev empty_pat : ExcludePat
empty_pat = record { group = ""; version = ""; kind = ""; resource = ""; crd_name = "" }

-- The `default` of `parseExclude`: the name of a CRD, or of a resource.
abbrev of_name : String → ExcludePat
of_name s =
    let (resource, group) = cut b'.' s in
    if str_contains s "."
    then record empty_pat { crd_name = s; resource = resource; group = group }
    else record empty_pat { resource = s }

abbrev of_parts : String → List String → ExcludePat
of_parts s (group ∷ version ∷ kind ∷ []) = record empty_pat {
  group = group;
  version = version;
  kind = kind;
}
of_parts s (group ∷ kind ∷ []) = record empty_pat { group = group; kind = kind }
of_parts s _ = of_name s

-- `parseExclude`
unfoldable pub parse_exclude : String → ExcludePat
unfolding trim_space split cut str_contains
parse_exclude raw = let s = trim_space raw in of_parts s (split b'/' s)

abbrev lowered : String → List ℕ
lowered s = map lower_code (codes s)

-- `kindMatchesResource`
unfoldable pub kind_matches_resource : String → String → Bool
kind_matches_resource kind resource =
    let k = lowered kind in
    let r = lowered resource in
    if kind == "" || resource == ""
    then false
    else if same k r || same (k ++ codes "s") r || same (k ++ codes "es") r
    then true
    else if ends_with k (codes "y") && same (drop_last 1 k ++ codes "ies") r
    then true
    else if ends_with k (codes "ss") && same (k ++ codes "es") r
    then true
    else ends_with k (codes "class") && same (drop_last 5 k ++ codes "classes") r

-- `matchGVR`
unfoldable pub match_gvr : ExcludePat → Ref → String → Bool
unfolding equal_fold kind_matches_resource
match_gvr p ref kind =
    if not (p.crd_name == "")
      && not (ref.group == "")
      && (equal_fold (ref.resource <> "." <> ref.group) p.crd_name
          || (equal_fold ref.resource p.resource && equal_fold ref.group p.group))
    then true
    else if not (p.resource == "") && p.group == "" && equal_fold ref.resource p.resource
    then true
    else if not (p.resource == "")
        && not (p.group == "")
        && p.kind == ""
        && p.crd_name == ""
        && equal_fold ref.resource p.resource
        && equal_fold ref.group p.group
    then true
    else if p.group == "" || p.kind == ""
    then false
    else if not (equal_fold ref.group p.group)
    then false
    else if not (p.version == "") && not (equal_fold ref.version p.version)
    then false
    else if not (kind == "") && equal_fold kind p.kind
    then true
    else kind_matches_resource p.kind ref.resource

-- `excludedGVR`
unfoldable pub excluded_gvr : Ref → String → List String → Bool
unfolding parse_exclude match_gvr
excluded_gvr ref kind = any (λ raw. match_gvr (parse_exclude raw) ref kind)
