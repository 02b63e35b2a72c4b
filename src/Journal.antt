-- ===== src/Journal.antt =====
-- `SnapshotJournal` (snapshots.py): the edits of each turn, for undo and redo.
pub mod Turns
pub mod Recorded
pub mod Calls
pub mod Checks
pub mod Rollback
pub mod Steps
pub mod Raised
pub mod Undo
pub mod Refused
pub mod Bounds
mod Tests
use noah_code.Prelude.{
  drop, ℕ, zero, suc, ◌+◌, ◌-◌, Bool, true, false, ◌&&◌, ◌||◌, not, Option, none, some, List, [],
  ◌∷◌, ◌++◌, map, ltb, leb, ◌==◌, if◌then◌else◌, any, null, length, keep,
}
use mathlib.Core.List.{reverse}
use noah_code.Python.Text.{Text, text_eq}
use noah_code.Files.{Bytes, File, FileSystem, put_file}

pub record FileMutation : Type 0 where
  pub id : ℕ
  pub path : Text
  pub existed_before : Bool
  pub pre_hash : Option Text
  pub post_hash : Option Text
  pub pre_bytes : Option Bytes
  pub mode : Option ℕ
  pub turn_id : ℕ
  pub post_bytes : Option Bytes
  pub post_mode : Option ℕ

pub record TurnJournal : Type 0 where
  pub turn_id : ℕ
  pub mutations : List FileMutation
  pub shell_may_bypass : Bool

pub record SnapshotJournal : Type 0 where
  pub blob_limit : ℕ
  pub turns : List TurnJournal
  pub redos : List TurnJournal
  pub current : Option TurnJournal

abbrev pub journal_max_turns : ℕ
journal_max_turns = 20

-- `del l[:-JOURNAL_MAX_TURNS]`: what comes last is kept.
unfoldable pub cap_turns : List TurnJournal → List TurnJournal
unfolding drop
cap_turns l = drop (length l - journal_max_turns) l

-- What a raised RuntimeError says of.
pub data Error : Type 0 where
  nothing_left shell_bypass write_failed rollback_failed : Error
  changed too_large corrupt : Text → Error

abbrev pub option_eq : Option Text → Option Text → Bool
option_eq none none = true
option_eq (some a) (some b) = text_eq a b
option_eq _ _ = false

abbrev pub is_there : Option File → Bool
is_there none = false
is_there (some f) = true

-- `data if len(data) <= self.blob_limit else None`
abbrev pub stored_bytes : ℕ → Option File → Option Bytes
stored_bytes limit none = none
stored_bytes limit (some f) = if leb (length f.content) limit then some f.content else none

abbrev pub file_mode : Option File → Option ℕ
file_mode none = none
file_mode (some f) = some f.mode

-- `_write_state`; a file that is made without a mode has that of `mkstemp`.
abbrev pub written : Option Bytes → Option ℕ → Option File
written none mode = none
written (some content) none = some (record { content = content; mode = 0o600 })
written (some content) (some mode) = some (record { content = content; mode = mode })

abbrev pub pre_file : FileMutation → Option File
pre_file m = written (if m.existed_before then m.pre_bytes else none) m.mode

abbrev pub post_file : FileMutation → Option File
post_file m = written m.post_bytes m.post_mode

abbrev pub first_error : Option Error → Option Error → Option Error
first_error none e = e
first_error (some x) e = some x

abbrev pub expected_pre : FileMutation → Option Text
expected_pre m = if m.existed_before then m.pre_hash else none

-- A loop of writes, of which the one with the number `fault` raises an error and writes nothing.
-- It gives the mutations that were applied, the newest first, the files, and whether it failed.
unfoldable pub write_all :
    (FileMutation → Option File)
    → Option ℕ
    → List FileMutation
    → List FileMutation
    → FileSystem
    → List FileMutation × FileSystem × Bool
write_all file fault applied [] fs = (applied, fs, false)
write_all file (some zero) applied (m ∷ l) fs = (applied, fs, true)
write_all file (some (suc n)) applied (m ∷ l) fs =
    write_all file (some n) (m ∷ applied) l (put_file fs m.path (file m))
write_all file none applied (m ∷ l) fs =
    write_all file none (m ∷ applied) l (put_file fs m.path (file m))

-- The writes, and where one fails, those of the rollback, of which the one with the number `again` fails
-- as well and ends it. What is raised stands beside the files.
unfoldable pub write_or_roll_back :
    (FileMutation → Option File)
    → (FileMutation → Option File)
    → Option ℕ
    → Option ℕ
    → List FileMutation
    → FileSystem
    → FileSystem × Option Error
unfolding write_all
write_or_roll_back file back fault again l fs =
    let (applied, fs', failed) = write_all file fault [] l fs in
    let (kept, fs'', stuck) = write_all back again [] applied fs' in
    if failed then (fs'', some (if stuck then rollback_failed else write_failed)) else (fs', none)

module _ (sha256 : Bytes → Text) where
  abbrev pub file_hash : Option File → Option Text
  file_hash none = none
  file_hash (some f) = some (sha256 f.content)

  unfoldable pub preimage : ℕ → ℕ → ℕ → Text → Option File → FileMutation
  preimage limit id turn_id path o = record {
    id = id;
    path = path;
    existed_before = is_there o;
    pre_hash = file_hash o;
    post_hash = none;
    pre_bytes = stored_bytes limit o;
    mode = file_mode o;
    turn_id = turn_id;
    post_bytes = none;
    post_mode = none;
  }

  unfoldable pub with_postimage : ℕ → Option File → FileMutation → FileMutation
  with_postimage limit o m = record m {
    post_hash = file_hash o;
    post_bytes = stored_bytes limit o;
    post_mode = file_mode o;
  }

  -- `simulated.get(path, self._path_hash(path))`
  abbrev pub simulated_hash : List (Text × Option Text) → FileSystem → Text → Option Text
  simulated_hash [] fs p = file_hash (fs p)
  simulated_hash ((k, v) ∷ l) fs p = if text_eq k p then v else simulated_hash l fs p

  -- `mut.pre_hash and _sha256(mut.pre_bytes) != mut.pre_hash`
  abbrev is_corrupt_pre : Option Text → Bytes → Bool
  is_corrupt_pre none content = false
  is_corrupt_pre (some h) content = not (null h) && not (text_eq (sha256 content) h)

  abbrev pub check_pre : FileMutation → Option Error
  check_pre m =
      if m.existed_before
      then (elim m.pre_bytes [
        | none ↦ some (too_large m.path)
        | some content ↦ if is_corrupt_pre m.pre_hash content then some (corrupt m.path) else none
      ])
      else none

  abbrev pub check_post : FileMutation → Option Error
  check_post m = elim m.post_hash [
    | none ↦ none
    | some h ↦ elim m.post_bytes [
      | none ↦ some (too_large m.path)
      | some content ↦ if not (text_eq (sha256 content) h) then some (corrupt m.path) else none
    ]
  ]

  -- The loop of `validate_undo` over the reversed mutations.
  unfoldable pub check_undo :
      FileSystem → List (Text × Option Text) → List FileMutation → Option Error
  check_undo fs simulated [] = none
  check_undo fs simulated (m ∷ l) =
      first_error
        (if not (option_eq (simulated_hash simulated fs m.path) m.post_hash)
          then some (changed m.path)
          else first_error (check_pre m) (check_post m))
        (check_undo fs ((m.path, expected_pre m) ∷ simulated) l)

  -- The loop of `redo` before it writes.
  unfoldable pub check_redo :
      FileSystem → List (Text × Option Text) → List FileMutation → Option Error
  check_redo fs simulated [] = none
  check_redo fs simulated (m ∷ l) =
      first_error
        (if not (option_eq (simulated_hash simulated fs m.path) (expected_pre m))
          then some (changed m.path)
          else check_post m)
        (check_redo fs ((m.path, m.post_hash) ∷ simulated) l)
