-- ===== src/Movers.antt =====
-- pkg/movers/mover.go: the registry of data movers. A mover stands by its name, its classes and what
-- it discovers of a workload.
pub mod Choice
mod Tests
use portage.Base.{
  String, ◌<>◌, ◌==◌, Bool, true, false, not, ◌||◌, Option, none, some, List, [], ◌∷◌, ◌++◌,
  if◌then◌else◌, any, Fallible, ok, err, ◌>>=◌,
}
use portage.Api.{WorkloadClass, same_class}
use portage.Classify.{Workload}

pub record Capability : Type 0 where
  pub backup : Bool
  pub replicate : Bool
  pub restore : Bool

abbrev pub no_capability : Capability
no_capability = record { backup = false; replicate = false; restore = false }

pub record Mover : Type 0 where
  pub name : String
  pub classes : List WorkloadClass
  pub discover : Workload → Fallible Capability

abbrev pub Registry : Type 0
Registry = List Mover

-- `Register`: after the others.
unfoldable pub register_mover : Mover → Registry → Registry
register_mover m movers = movers ++ m ∷ []

-- `Get`
unfoldable pub get_mover : String → Registry → Option Mover
get_mover name [] = none
get_mover name (m ∷ ms) = if m.name == name then some m else get_mover name ms

-- `supports`
unfoldable pub supports : Mover → WorkloadClass → Bool
supports m class = any (λ c. same_class c class) m.classes

abbrev pub is_capable : Capability → Bool
is_capable c = c.backup || c.replicate || c.restore

-- The mover that is picked, with what it can do. An error of the mover that the caller names comes
-- with the mover in the source; the callers read the error first.
abbrev pub Pick : Type 0
Pick = Fallible (Option (Mover × Capability))

-- The first mover that supports the class and can do something.
unfoldable pub select_from : Workload → Registry → Pick
unfolding supports
select_from w [] = ok none
select_from w (m ∷ ms) =
    let rest = select_from w ms in
    if not (supports m w.class) then rest else do
      capability ← m.discover w
      if is_capable capability then ok (some (m, capability)) else rest

abbrev pub discovered : Workload → String → Option Mover → Pick
discovered w override none = err ("unknown mover: " <> override)
discovered w override (some m) = do capability ← m.discover w; ok (some (m, capability))

-- `Select`
unfoldable pub select : Workload → String → Registry → Pick
unfolding get_mover select_from
select w override movers =
    if not (override == "")
    then discovered w override (get_mover override movers)
    else select_from w movers
