-- ===== src/Classify/Match.antt =====
-- What an image is matched with: `MatchImage` of pkg/classify/catalog.go.
use portage.Base.{
  take, ℕ, zero, suc, String, ◌≡◌, ◌↔◌, refl, inl, inr, Bool, true, false, some, List, [], ◌∷◌,
  ◌++◌, All, Some, arith, Bool-cases, contains_fold, codes, lower_code, begins_with, holds, map,
}
use portage.Api.{sql_logical}
use portage.Classify.Catalog.{Engine, catalog, first, image_matches, match_image}

-- The list up to `x`, none of which passes, and what follows it.
abbrev pub IsFirst {ℓ} : {A : Type ℓ} → (A → Bool) → List A → A → Type ℓ
IsFirst p xs x =
    (pre : List _) × (post : List _) × (xs ≡ pre ++ x ∷ post)
    × All (λ y. p y ≡ false) pre
    × (p x ≡ true)

begins_with-prefix :
    (cs ds es : List ℕ) → begins_with cs (ds ++ es) ≡ true → begins_with cs ds ≡ true
begins_with-prefix cs [] es h = refl
begins_with-prefix [] (d ∷ ds) es h = h
begins_with-prefix (c ∷ cs) (d ∷ ds) es h = ground (arith, begins_with-prefix cs ds es)

holds-prefix : (cs ds es : List ℕ) → holds cs (ds ++ es) ≡ true → holds cs ds ≡ true
holds-prefix [] ds es h = begins_with-prefix [] ds es h
holds-prefix (c ∷ cs) ds es h =
    ground (arith, begins_with-prefix (c ∷ cs) ds es, holds-prefix cs ds es)

-- The text of Percona's server for MongoDB holds the text of its server for MySQL.
percona_prefix :
    (image : String)
    → contains_fold image "percona/percona-server-mongodb" ≡ true
    → contains_fold image "percona/percona-server" ≡ true
unfolding contains_fold
percona_prefix image h =
    holds-prefix (map lower_code (codes image)) (map lower_code (codes "percona/percona-server"))
      (map lower_code (codes "-mongodb")) h

-- Where one of the first engines passes, one of the first is taken.
first-take {ℓ} :
    {A : Type ℓ} (P : A → Type 0) (p : A → Bool) (n : ℕ) (xs : List A)
    → Some (λ x. p x ≡ true) (take n xs)
    → All P (take n xs)
    → (x : A) × (first p xs ≡ some x) × P x
unfolding first
first-take P p zero xs h own = elim h [ ]
first-take P p (suc n) [] h own = elim h [ ]
first-take P p (suc n) (x ∷ xs) h (own, own_rest) = elim (Bool-cases (p x)) [
  | inl passes ↦ (x, rw passes, own)
  | inr fails ↦
      let (y, found, own) = first-take P p n xs (ground arith) own_rest in (y, ground arith, own)
]

-- An image whose name holds `percona/percona-server-mongodb` is matched with an engine of the class
-- SQLLogical, by the catalog as it is built in.
pub match_image-percona_mongodb :
    (image : String)
    → contains_fold image "percona/percona-server-mongodb" ≡ true
    → (e : Engine) × (match_image catalog image ≡ some e) × (e.class ≡ sql_logical)
unfolding match_image
match_image-percona_mongodb image h =
    first-take (λ e. e.class ≡ sql_logical) (image_matches image) 5 catalog
      (inr (inr (inr (inr (inl (ground (arith, percona_prefix image h)))))))
      (refl, (refl, (refl, (refl, (refl, tt)))))

first-IsFirst {ℓ} :
    {A : Type ℓ} (p : A → Bool) (xs : List A) (x : A) → first p xs ≡ some x → IsFirst p xs x
unfolding first
first-IsFirst p [] x found = cc
first-IsFirst p (y ∷ xs) x found = elim (Bool-cases (p y)) [
  | inl passes ↦ ([], xs, ground arith, tt, ground arith)
  | inr fails ↦
      let (pre, post, split, fail, passes) = first-IsFirst p xs x (rw fails at found) in
      (y ∷ pre, post, ground arith, (fails, fail), passes)
]

IsFirst-first {ℓ} :
    {A : Type ℓ} (p : A → Bool) (pre post : List A) (x : A)
    → All (λ y. p y ≡ false) pre
    → p x ≡ true
    → first p (pre ++ x ∷ post) ≡ some x
unfolding first
IsFirst-first p [] post x fail passes = rw passes
IsFirst-first p (y ∷ pre) post x (f, fail) passes = rw f (IsFirst-first p pre post x fail passes)

-- `MatchImage` gives an engine exactly where it is the first of the list that the image holds a
-- matcher of.
pub match_image-eq-some_iff :
    (engines : List Engine) (image : String) (e : Engine)
    → (match_image engines image ≡ some e) ↔ IsFirst (image_matches image) engines e
unfolding match_image
match_image-eq-some_iff engines image e = (
  first-IsFirst (image_matches image) engines e,
  λ (pre, post, split, fail, passes).
      rw split (IsFirst-first (image_matches image) pre post e fail passes),
)
