-- ===== src/Controller/Dumps.antt =====
-- internal/controller/action_controller.go: the annotation of an Action that tells which dumps were
-- applied, `dumpApplied` and `rememberDumpApplied`.
pub mod Recorded
mod Tests
use portage.Base.{
  String, ◌<>◌, ◌==◌, Bool, false, Option, none, some, if◌then◌else◌, any, split, Fallible, ok, err,
}

-- `dumpApplied`, given the annotation, "" where there is none.
unfoldable pub dump_applied : String → String → Bool
unfolding split
dump_applied annotation key =
    if key == "" then false else any (λ line. line == key) (split 10 annotation)

-- What `rememberDumpApplied` leaves as the annotation, given the one of the Action that it reads.
unfoldable pub remembered : String → String → String
unfolding dump_applied
remembered latest key =
    if dump_applied latest key then latest else if latest == "" then key else latest <> "\n" <> key

abbrev pub after_update : String → Option String → Fallible String
after_update annotation none = ok annotation
after_update annotation (some e) = err e

-- `rememberDumpApplied`, given what the read and the update of its last attempt answer: the
-- annotation that the caller goes on with. With a key that is there nothing is updated.
unfoldable pub remember_dump_applied : Fallible String → Option String → String → Fallible String
unfolding remembered
remember_dump_applied (err e) update key = err e
remember_dump_applied (ok latest) update key =
    if dump_applied latest key then ok latest else after_update (remembered latest key) update
