-- ===== src/Graph/Discover/Exact.antt =====
-- Which resources `discover` gives.
use portage.Base.{
  String, ◌==◌, ◌≡◌, refl, Bool, true, false, not, ◌&&◌, ◌||◌, Option, none, some, List, [], ◌∷◌,
  ◌++◌, if◌then◌else◌, any, any-append, join, str_contains, arith, Bool-cases, inl, inr,
  Option-cases, eq_iff, ap, ◌∙◌,
}
use portage.Graph.{Ref, excluded_gvr}
use portage.Graph.Discover.{
  ApiResource, ApiResourceList, ClusterObjectsSpec, include_cluster_scoped, listed, resource_key,
  add_parsed, Discovered, ref_of, add_resource, add_resources, add_list, add_lists, discover,
  skip_resource, skip_group,
}

-- May a resource be copied? It is no subresource, is not skipped or excluded, can be listed and
-- created, and has a namespace or is a CRD unless the spec includes the resources without one.
abbrev pub admits : ClusterObjectsSpec → String → String → ApiResource → Bool
admits spec group version r =
    not (str_contains r.name "/")
    && not (listed skip_resource r.name)
    && (r.namespaced || r.name == "customresourcedefinitions" || include_cluster_scoped spec)
    && str_contains (join "," r.verbs) "list"
    && str_contains (join "," r.verbs) "create"
    && not (excluded_gvr (ref_of group version r) r.kind spec.exclude_gvks)

abbrev pub added : String → String → Discovered → ApiResource → Discovered
added group version found r = record {
  seen = resource_key group r.name ∷ found.seen;
  refs = found.refs ++ ref_of group version r ∷ [];
}

-- The six guards of the loop, as one test.
guards_eq {ℓ} :
    {A : Type ℓ} (sub skip seen namespaced crd scoped list create excluded : Bool) (old new : A)
    → (if sub
        then old
        else if skip
        then old
        else if seen
        then old
        else if not namespaced && not crd && not scoped
        then old
        else if not list || not create
        then old
        else if excluded
        then old
        else new)
      ≡ (if (not sub && not skip && (namespaced || crd || scoped) && list && create && not excluded)
            && not seen
          then new
          else old)
guards_eq true skip seen namespaced crd scoped list create excluded old new = refl
guards_eq false true seen namespaced crd scoped list create excluded old new = refl
guards_eq false false true namespaced crd scoped list create excluded old new = ground arith
guards_eq false false false namespaced crd scoped list create excluded old new = ground arith

add_resource-eq :
    (spec : ClusterObjectsSpec) (group version : String) (found : Discovered) (r : ApiResource)
    → add_resource spec group version found r ≡ (
        if admits spec group version r && not (listed found.seen (resource_key group r.name))
        then added group version found r
        else found)
unfolding add_resource
add_resource-eq spec group version found r =
    guards_eq (str_contains r.name "/") (listed skip_resource r.name)
      (listed found.seen (resource_key group r.name)) r.namespaced
      (r.name == "customresourcedefinitions") (include_cluster_scoped spec)
      (str_contains (join "," r.verbs) "list") (str_contains (join "," r.verbs) "create")
      (excluded_gvr (ref_of group version r) r.kind spec.exclude_gvks) found
      (added group version found r)

-- Is there a reference of the key `k`?
abbrev pub has_key : String → List Ref → Bool
has_key k = any (λ ref. resource_key ref.group ref.resource == k)

abbrev IsKeyed : Discovered → Type 0
IsKeyed found = (k : String) → listed found.seen k ≡ has_key k found.refs

-- Is a resource one to copy, of the key `k`?
abbrev pub wants : ClusterObjectsSpec → String → String → String → ApiResource → Bool
wants spec k group version r = admits spec group version r && resource_key group r.name == k

-- What a step adds to the keys.
record Adds (k : String) (wanted : Bool) (before after : Discovered) : Type 0 where
  keyed : IsKeyed after
  exact : has_key k after.refs ≡ (has_key k before.refs || wanted)

added-IsKeyed :
    (group version : String) (found : Discovered) (r : ApiResource)
    → IsKeyed found
    → IsKeyed (added group version found r)
added-IsKeyed group version found r h k = ground (
  arith,
  h k,
  any-append (λ ref. resource_key ref.group ref.resource == k) found.refs
      (ref_of group version r ∷ []),
)

listed-same :
    (found : Discovered) (a b : String) → a ≡ b → listed found.seen a ≡ listed found.seen b
listed-same found a b same = ap (listed found.seen) same

-- A resource that is added adds its key.
new_eq :
    (admitted seen is_k has_k : Bool)
    → (admitted && not seen) ≡ true
    → (has_k || (is_k || false)) ≡ (has_k || admitted && is_k)
new_eq true seen is_k has_k new = ground arith
new_eq false seen is_k has_k new = cc

-- A resource that is not added adds no key.
old_eq :
    (admitted seen is_k has_k : Bool)
    → (admitted && not seen) ≡ false
    → (is_k ≡ true → seen ≡ has_k)
    → has_k ≡ (has_k || admitted && is_k)
old_eq admitted seen is_k true old same = refl
old_eq true seen true false old same = ground (arith, same refl)
old_eq true seen false false old same = refl
old_eq false seen is_k false old same = refl

add_resource-Adds :
    (spec : ClusterObjectsSpec) (group version k : String) (found : Discovered) (r : ApiResource)
    → IsKeyed found
    → Adds k (wants spec k group version r) found (add_resource spec group version found r)
add_resource-Adds spec group version k found r h =
    elim (Bool-cases
      (admits spec group version r && not (listed found.seen (resource_key group r.name)))) [
        | inl new ↦
            rw (add_resource-eq spec group version found r, new)
              (record {
                keyed = added-IsKeyed group version found r h;
                exact =
                    any-append (λ ref. resource_key ref.group ref.resource == k) found.refs
                      (ref_of group version r ∷ [])
                    ∙ new_eq (admits spec group version r)
                        (listed found.seen (resource_key group r.name))
                        (resource_key group r.name == k) (has_key k found.refs) new;
              })
        | inr old ↦
            rw (add_resource-eq spec group version found r, old)
              (record {
                keyed = h;
                exact =
                    old_eq (admits spec group version r)
                      (listed found.seen (resource_key group r.name))
                      (resource_key group r.name == k) (has_key k found.refs) old
                      (λ e.
                        listed-same found (resource_key group r.name) k
                          ((eq_iff (resource_key group r.name) k).0 e)
                        ∙ h k);
              })
      ]

add_resources-Adds :
    (spec : ClusterObjectsSpec) (group version k : String) (found : Discovered)
    (rs : List ApiResource)
    → IsKeyed found
    → Adds k (any (wants spec k group version) rs) found (add_resources spec group version found rs)
unfolding add_resources
add_resources-Adds spec group version k found [] h = record { keyed = h; exact = ground arith }
add_resources-Adds spec group version k found (r ∷ rs) h =
    let next = add_resource spec group version found r in
    let first = add_resource-Adds spec group version k found r h in
    let rest = add_resources-Adds spec group version k next rs first.keyed in
    record { keyed = rest.keyed; exact = rest.exact ∙ rw first.exact (ground arith) }

module _ (parse_group_version : String → Option (String × String)) (spec : ClusterObjectsSpec) where
  abbrev pub wanted_of : String → List ApiResource → Option (String × String) → Bool
  wanted_of k rs none = false
  wanted_of k rs (some (group, version)) =
      not (listed skip_group group) && any (wants spec k group version) rs

  -- Does a list have a resource to copy, of the key `k`?
  abbrev pub wanted : String → ApiResourceList → Bool
  wanted k l = wanted_of k l.resources (parse_group_version l.group_version)

  add_list-Adds :
      (k : String) (found : Discovered) (l : ApiResourceList)
      → IsKeyed found
      → Adds k (wanted k l) found (add_list parse_group_version spec found l)
  unfolding add_list add_parsed
  add_list-Adds k found l h = elim (Option-cases (parse_group_version l.group_version)) [
    | inl bad ↦ rw bad (record { keyed = h; exact = ground arith })
    | inr ((group, version), parsed) ↦ elim (Bool-cases (listed skip_group group)) [
      | inl skipped ↦ rw (parsed, skipped) (record { keyed = h; exact = ground arith })
      | inr kept ↦ rw (parsed, kept) (add_resources-Adds spec group version k found l.resources h)
    ]
  ]

  add_lists-Adds :
      (k : String) (found : Discovered) (ls : List ApiResourceList)
      → IsKeyed found
      → Adds k (any (wanted k) ls) found (add_lists parse_group_version spec found ls)
  unfolding add_lists
  add_lists-Adds k found [] h = record { keyed = h; exact = ground arith }
  add_lists-Adds k found (l ∷ ls) h =
      let first = add_list-Adds k found l h in
      let rest = add_lists-Adds k (add_list parse_group_version spec found l) ls first.keyed in
      record { keyed = rest.keyed; exact = rest.exact ∙ rw first.exact (ground arith) }

  -- There is a reference to a group and resource exactly if some list of a group that is not skipped,
  -- whose group and version can be parsed, has that resource and it may be copied: it is no
  -- subresource, is not skipped or excluded, can be listed and created, and has a namespace or is a
  -- CRD unless the spec includes the resources without one.
  pub discover-IsExact :
      (k : String) (ls : List ApiResourceList)
      → has_key k (discover parse_group_version spec ls) ≡ any (wanted k) ls
  unfolding discover
  discover-IsExact k ls = (add_lists-Adds k (record { seen = []; refs = [] }) ls (λ k. refl)).exact
