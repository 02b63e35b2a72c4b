-- ===== src/Journal/Tests.antt =====
-- A run of a journal, and the theorems on it applied to it.
use noah_code.Prelude.{String, none, some, List, [], ◌∷◌, ◌≡◌, refl, arith}
use noah_code.Python.Text.{Text, text_eq, codes}
use noah_code.Files.{Bytes, File, FileSystem, put_file}
use noah_code.Journal.{
  FileMutation, TurnJournal, SnapshotJournal, write_failed, preimage, with_postimage, Error,
  rollback_failed,
}
use noah_code.Journal.Turns.{end_turn, undo, redo}
use noah_code.Journal.Recorded.{Edit, edited, AllSmall, mutations_of}
use noah_code.Journal.Calls.{FreshIds, after_turn, recorded_turn}
use noah_code.Journal.Undo.{undo-redo, undo-redo-fault}
use noah_code.Journal.Refused.{undo_changed}
use noah_code.Journal.Bounds.{IsBounded, turns-bound}

-- A hash without collisions.
abbrev sha256 : Bytes → Text
sha256 b = b

abbrev say : String → File
say s = record { content = codes s; mode = 0o644 }

-- A file system with one file.
abbrev disk : FileSystem
disk = put_file (λ q. none) (codes "a.py") (some (say "one"))

abbrev journal : SnapshotJournal
journal = record { blob_limit = 100; turns = []; redos = []; current = none }

-- The file is changed, another is made, and the first is removed.
abbrev first_edit : Edit
first_edit = record { id = 1; path = codes "a.py"; file = some (say "two") }

abbrev other_edits : List Edit
other_edits =
    record { id = 2; path = codes "b.py"; file = some (say "new") }
    ∷ record { id = 3; path = codes "a.py"; file = none }
    ∷ []

abbrev done : SnapshotJournal
done = after_turn sha256 journal 7 disk (first_edit ∷ other_edits)

abbrev now : FileSystem
now = edited disk (first_edit ∷ other_edits)

fresh : FreshIds [] (first_edit ∷ other_edits)
fresh = (refl, (refl, (refl, tt)))

small : AllSmall 100 disk (first_edit ∷ other_edits)
unfolding text_eq
small = (omega arith, omega arith, (tt, omega arith, (omega arith, tt, tt)))

undo-redo_example :
    ((undo sha256 done none none now).1 ≡ disk)
    × ((undo sha256 done none none now).2 ≡ none)
    × (redo sha256 (undo sha256 done none none now).0 none none (undo sha256 done none none now).1
        ≡ (done, now, none))
undo-redo_example = undo-redo sha256 journal 7 disk first_edit other_edits fresh small

undo-redo-fault_example :
    (undo sha256 done (some 1) none now ≡ (done, now, some write_failed))
    × (redo sha256 (undo sha256 done none none now).0 (some 1) none disk
        ≡ ((undo sha256 done none none now).0, disk, some write_failed))
    × ((undo sha256 done (some 1) (some 0) now).0 ≡ done)
    × ((redo sha256 (undo sha256 done none none now).0 (some 1) (some 0) disk).0
        ≡ (undo sha256 done none none now).0)
undo-redo-fault_example =
    undo-redo-fault sha256 journal 7 disk first_edit other_edits 1 (some 0) fresh small
      (omega arith)

-- A turn of two edits, behind which another program writes the file of the first one.
abbrev two_edits : List Edit
two_edits = first_edit ∷ record { id = 2; path = codes "b.py"; file = some (say "new") } ∷ []

abbrev short_turn : TurnJournal
short_turn = recorded_turn sha256 100 7 disk two_edits

abbrev short : SnapshotJournal
short = record { blob_limit = 100; turns = short_turn ∷ []; redos = []; current = none }

-- The rollback of an undo that fails as well leaves the files as they are then.
stuck :
    let r = undo sha256 short (some 1) (some 0) (edited disk two_edits) in
    (r.2 ≡ some rollback_failed) × (r.1 (codes "b.py") ≡ none)
unfolding mutations_of preimage with_postimage text_eq undo edited
stuck = (refl, refl)

abbrev first_mutation : FileMutation
first_mutation =
    with_postimage sha256 100 (some (say "two"))
      (preimage sha256 100 1 7 (codes "a.py") (some (say "one")))

abbrev later_mutation : FileMutation
later_mutation =
    with_postimage sha256 100 (some (say "new")) (preimage sha256 100 2 7 (codes "b.py") none)

abbrev elsewhere : FileSystem
elsewhere = put_file (edited disk two_edits) (codes "a.py") (some (say "ours"))

undo_changed_example :
    (e : Error) × (undo sha256 short none none elsewhere ≡ (short, elsewhere, some e))
unfolding mutations_of preimage with_postimage text_eq
undo_changed_example =
    undo_changed sha256 short none none elsewhere short_turn [] (later_mutation ∷ []) first_mutation
      refl refl refl (λ h. ground (arith, h))

keeps_turns_bound :
    IsBounded (end_turn short)
    × IsBounded (undo sha256 short (some 0) none disk).0
    × IsBounded (redo sha256 short (some 0) none disk).0
keeps_turns_bound = turns-bound sha256 short (some 0) none disk (omega arith, omega arith)
