-- ===== src/Movers/Tests.antt =====
-- A mover of dumps that cannot help, a mover of volumes that can.
use portage.Base.{String, ◌≡◌, ◌≢◌, ◌↔◌, refl, true, none, some, [], ◌∷◌, All, ok}
use portage.Api.{sql_logical, generic_pvc}
use portage.Samples.{database}
use portage.Movers.{Capability, Mover, Registry, no_capability, select}
use portage.Movers.Choice.{IsPassed, IsChosen, select-IsFirst, select-IsNamed}

abbrev all_of_it : Capability
all_of_it = record { backup = true; replicate = true; restore = true }

abbrev dumps : Mover
dumps = record { name = "dumps"; classes = sql_logical ∷ []; discover = λ w. ok no_capability }

abbrev volumes : Mover
volumes = record {
  name = "volumes";
  classes = generic_pvc ∷ sql_logical ∷ [];
  discover = λ w. ok all_of_it;
}

abbrev registry : Registry
registry = dumps ∷ volumes ∷ []

select-IsFirst_example :
    ((select database "" registry ≡ ok (some (volumes, all_of_it)))
      ↔ IsChosen database registry volumes all_of_it)
    × ((select database "" registry ≡ ok none) ↔ All (IsPassed database) registry)
select-IsFirst_example = select-IsFirst database registry volumes all_of_it

dumps_named : select database "dumps" registry ≡ ok (some (dumps, no_capability))
unfolding select
dumps_named = refl

named : ◌≢◌ {A = String} "dumps" ""
named e = cc

select-IsNamed_example : (dumps.name ≡ "dumps") × (dumps.discover database ≡ ok no_capability)
select-IsNamed_example =
    select-IsNamed database "dumps" registry dumps no_capability named dumps_named
