-- ===== src/Movers/Choice.antt =====
-- Which mover `Select` of pkg/movers/mover.go picks.
use mathlib.Core.Option.{some-injective}
use mathlib.Core.Path.{subst}
use portage.Base.{
  String, ◌==◌, ◌≡◌, ◌≢◌, refl, ◌↔◌, ◌⊎◌, inl, inr, true, false, Option, none, some, [], ◌∷◌, ◌++◌,
  All, Fallible, ok, err, ok-injective, err-ok, of_bind, ap, sym, ◌∙◌, Bool-cases, arith, eq_iff,
}
use portage.Classify.{Workload}
use portage.Movers.{
  Capability, Mover, Registry, supports, is_capable, select_from, get_mover, discovered, select,
}

-- A mover that is passed over: it does not support the class, or can do nothing.
abbrev pub IsPassed : Workload → Mover → Type 0
IsPassed w m =
    (supports m w.class ≡ false)
    ⊎ ((c : Capability) × (m.discover w ≡ ok c) × (is_capable c ≡ false))

-- The first mover of the registry that is not passed over, which can do something.
abbrev pub IsChosen : Workload → Registry → Mover → Capability → Type 0
IsChosen w movers m c =
    (pre : Registry) × (post : Registry) × (movers ≡ pre ++ m ∷ post)
    × All (IsPassed w) pre
    × (supports m w.class ≡ true)
    × (m.discover w ≡ ok c)
    × (is_capable c ≡ true)

Fallible-cases {ℓ} :
    {A : Type ℓ} (m : Fallible A) → ((a : A) × (m ≡ ok a)) ⊎ ((e : String) × (m ≡ err e))
Fallible-cases (ok a) = inl (a, refl)
Fallible-cases (err e) = inr (e, refl)

select_from-skip :
    (w : Workload) (m : Mover) (ms : Registry)
    → IsPassed w m
    → select_from w (m ∷ ms) ≡ select_from w ms
unfolding select_from
select_from-skip w m ms (inl unsupported) = rw unsupported
select_from-skip w m ms (inr (c, found, idle)) = elim (Bool-cases (supports m w.class)) [
  | inl fits ↦ rw (fits, found, idle)
  | inr unfit ↦ rw unfit
]

select_from-take :
    (w : Workload) (m : Mover) (ms : Registry) (c : Capability)
    → supports m w.class ≡ true
    → m.discover w ≡ ok c
    → is_capable c ≡ true
    → select_from w (m ∷ ms) ≡ ok (some (m, c))
unfolding select_from
select_from-take w m ms c fits found able = rw (fits, found, able)

select_from-fail :
    (w : Workload) (m : Mover) (ms : Registry) (e : String)
    → supports m w.class ≡ true
    → m.discover w ≡ err e
    → select_from w (m ∷ ms) ≡ err e
unfolding select_from
select_from-fail w m ms e fits found = rw (fits, found)

-- What a mover does on its turn.
data Turn (w : Workload) (m : Mover) : Type 0 where
  passed : IsPassed w m → Turn w m
  taken :
      (c : Capability)
      → supports m w.class ≡ true
      → m.discover w ≡ ok c
      → is_capable c ≡ true
      → Turn w m
  failed : (e : String) → supports m w.class ≡ true → m.discover w ≡ err e → Turn w m

Turn-intro : (w : Workload) (m : Mover) → Turn w m
Turn-intro w m = elim (Bool-cases (supports m w.class)) [
  | inr unfit ↦ passed (inl unfit)
  | inl fits ↦ elim (Fallible-cases (m.discover w)) [
    | inr (e, found) ↦ failed e fits found
    | inl (c, found) ↦ elim (Bool-cases (is_capable c)) [
      | inl able ↦ taken c fits found able
      | inr idle ↦ passed (inr (c, found, idle))
    ]
  ]
]

some-none {ℓ} : {A : Type ℓ} {a : A} → some a ≡ none → ⊥
some-none e = cc

select_from-IsChosen :
    (w : Workload) (movers : Registry) (m : Mover) (c : Capability)
    → select_from w movers ≡ ok (some (m, c))
    → IsChosen w movers m c
unfolding select_from
select_from-IsChosen w [] m c done = cc
select_from-IsChosen w (x ∷ xs) m c done = elim (Turn-intro w x) [
  | passed pass ↦
      let (pre, post, split, passes, fits, found, able) =
        select_from-IsChosen w xs m c (sym (select_from-skip w x xs pass) ∙ done) in
      (x ∷ pre, post, ap (λ ys. x ∷ ys) split, (pass, passes), fits, found, able)
  | failed e fits found ↦ absurd (err-ok (sym (select_from-fail w x xs e fits found) ∙ done))
  | taken c' fits found able ↦
      let same =
        some-injective _ _
          (ok-injective (sym (select_from-take w x xs c' fits found able) ∙ done)) in
      subst (λ (m, c). IsChosen w (x ∷ xs) m c) same ([], xs, refl, tt, fits, found, able)
]

IsChosen-select_from :
    (w : Workload) (pre post : Registry) (m : Mover) (c : Capability)
    → All (IsPassed w) pre
    → supports m w.class ≡ true
    → m.discover w ≡ ok c
    → is_capable c ≡ true
    → select_from w (pre ++ m ∷ post) ≡ ok (some (m, c))
IsChosen-select_from w [] post m c passes fits found able =
    select_from-take w m post c fits found able
IsChosen-select_from w (x ∷ pre) post m c (pass, passes) fits found able =
    select_from-skip w x (pre ++ m ∷ post) pass
    ∙ IsChosen-select_from w pre post m c passes fits found able

select_from-IsPassed :
    (w : Workload) (movers : Registry) → select_from w movers ≡ ok none → All (IsPassed w) movers
select_from-IsPassed w [] done = tt
select_from-IsPassed w (x ∷ xs) done = elim (Turn-intro w x) [
  | passed pass ↦ (pass, select_from-IsPassed w xs (sym (select_from-skip w x xs pass) ∙ done))
  | failed e fits found ↦ absurd (err-ok (sym (select_from-fail w x xs e fits found) ∙ done))
  | taken c fits found able ↦
      absurd (some-none (ok-injective (sym (select_from-take w x xs c fits found able) ∙ done)))
]

All-IsPassed :
    (w : Workload) (movers : Registry) → All (IsPassed w) movers → select_from w movers ≡ ok none
unfolding select_from
All-IsPassed w [] passes = refl
All-IsPassed w (x ∷ xs) (pass, passes) = select_from-skip w x xs pass ∙ All-IsPassed w xs passes

-- Without a name from the caller, `Select` picks a mover exactly if it is the first that supports the
-- class of the workload and reports that it can do something, and none exactly if no mover does both
-- and none that supports the class fails.
pub select-IsFirst :
    (w : Workload) (movers : Registry) (m : Mover) (c : Capability)
    → ((select w "" movers ≡ ok (some (m, c))) ↔ IsChosen w movers m c)
      × ((select w "" movers ≡ ok none) ↔ All (IsPassed w) movers)
unfolding select
select-IsFirst w movers m c = (
  (
    select_from-IsChosen w movers m c,
    λ (pre, post, split, passes, fits, found, able).
        rw split (IsChosen-select_from w pre post m c passes fits found able),
  ),
  (select_from-IsPassed w movers, All-IsPassed w movers),
)

get_mover-name :
    (name : String) (movers : Registry) (m : Mover) → get_mover name movers ≡ some m → m.name ≡ name
unfolding get_mover
get_mover-name name [] m found = cc
get_mover-name name (x ∷ xs) m found = elim (Bool-cases (x.name == name)) [
  | inl same ↦
      subst (λ y. y.name ≡ name) (some-injective x m (rw same at found))
        ((eq_iff x.name name).0 same)
  | inr other ↦ get_mover-name name xs m (rw other at found)
]

discovered-found :
    (w : Workload) (name : String) (o : Option Mover) (m : Mover) (c : Capability)
    → discovered w name o ≡ ok (some (m, c))
    → (o ≡ some m) × (m.discover w ≡ ok c)
discovered-found w name none m c done = absurd (err-ok done)
discovered-found w name (some x) m c done =
    let (d, found, done) = of_bind (x.discover w) (λ d. ok (some (x, d))) done in
    let same : ◌≡◌ {A = Mover × Capability} (x, d) (m, c) =
      some-injective _ _ (ok-injective done) in
    subst (λ (y, d). (some x ≡ some y) × (y.discover w ≡ ok d)) same (refl, found)

-- With a name from the caller, `Select` picks a mover of that name, with what it discovers, whatever
-- class it supports.
pub select-IsNamed :
    (w : Workload) (name : String) (movers : Registry) (m : Mover) (c : Capability)
    → name ≢ ""
    → select w name movers ≡ ok (some (m, c))
    → (m.name ≡ name) × (m.discover w ≡ ok c)
unfolding select
select-IsNamed w name movers m c named done =
    let given : (name == "") ≡ false = ground (arith, eq_iff name "") in
    let (got, found) = discovered-found w name (get_mover name movers) m c (rw given at done) in
    (get_mover-name name movers m got, found)
