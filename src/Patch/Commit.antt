-- ===== src/Patch/Commit.antt =====
-- The transaction of `apply_patch` (tools/workspace_tools.py): its steps, of which any may raise an
-- error, and the rollback.
use noah_code.Prelude.{
  ℕ, zero, suc, Bool, true, false, ◌||◌, not, Option, none, some, List, [], ◌∷◌, ◌++◌, map, ltb,
  if◌then◌else◌, null, length, collect, ◌+◌,
}
use mathlib.Core.List.{reverse}
use noah_code.Python.Text.{Text}
use noah_code.Files.{Bytes, File, FileSystem, put_file}
use noah_code.Journal.{SnapshotJournal, option_eq, written}
use noah_code.Journal.Turns.{record_preimage, record_postimage, discard_mutation}
use noah_code.Store.FileOperations.{
  FileOperation, begin_file_operation, complete_file_operations, rollback_file_operation,
}
use noah_code.Patch.{
  PatchInputs, Change, PatchError, rolled_back, rollback_failed, failed, ok, Item, content_of,
  preflight,
}

-- What the call reads around it: the hash, the uuids of the operation and of the mutation on a path,
-- the mode of a new file, the time, and the uuid of the group.
pub record PatchEnv : Type 0 where
  pub sha256 : Bytes → Text
  pub new_uuid : Text → Text
  pub new_mutation : Text → ℕ
  pub default_mode : ℕ
  pub now : ℕ
  pub operation_group : Text

-- What a patch changes: the files, the journal and the table of the runtime store.
pub record Workspace : Type 0 where
  pub files : FileSystem
  pub journal : SnapshotJournal
  pub rows : List FileOperation

-- The workspace under way, with the lists of `_apply_patch_locked`; `committed` has the newest first.
pub record Progress : Type 0 where
  pub workspace : Workspace
  pub mutations : List ℕ
  pub durable_operations : List (Text × Text)
  pub committed : List Item

-- One round of a loop; a commit and the fsync behind it are two steps.
pub data PatchStep : Type 0 where
  stage verify begin_durable record_pre commit sync record_post : Item → PatchStep
  complete_durable : PatchStep

-- The loops of the transaction.
unfoldable pub plan : List Item → List PatchStep
plan items =
    map stage items
    ++ (map verify items
        ++ (map begin_durable items
            ++ (map record_pre items
                ++ (collect (λ i. commit i ∷ sync i ∷ []) items
                    ++ (map record_post items ++ complete_durable ∷ [])))))

unfoldable pub is_due : Option ℕ → Bool
is_due none = false
is_due (some zero) = true
is_due (some (suc n)) = false

abbrev pub one_less : Option ℕ → Option ℕ
one_less none = none
one_less (some zero) = none
one_less (some (suc n)) = some n

abbrev pub exceeds : ℕ → Option File → Bool
exceeds limit none = false
exceeds limit (some f) = ltb limit (length f.content)

module _ (env : PatchEnv) (has_runtime : Bool) where
  -- The file that stands behind a commit.
  abbrev pub mode_or_default : Option ℕ → ℕ
  mode_or_default none = env.default_mode
  mode_or_default (some m) = m

  abbrev pub after_file : Item → Option File
  after_file i = elim i.after_bytes [
    | none ↦ none
    | some content ↦ some (record { content = content; mode = mode_or_default i.mode })
  ]

  -- `_begin_durable_file_operation`, and what is noted of it
  unfoldable pub begin_operation : Progress → Text → Progress
  unfolding begin_file_operation
  begin_operation s path =
      let w : Workspace = s.workspace in
      let (rows, id) =
        begin_file_operation env.sha256 w.rows w.files path env.operation_group (env.new_uuid path)
          env.now in
      if not has_runtime || exceeds w.journal.blob_limit (w.files path) then s else record s {
        workspace = record w { rows = rows };
        durable_operations = s.durable_operations ++ (id, path) ∷ [];
      }

  abbrev pub with_rows : Progress → Option (List FileOperation) → Option Progress
  with_rows s none = none
  with_rows s (some rows) = some (record s { workspace = record s.workspace { rows = rows } })

  -- `none` is an error. Temporary files and new directories are not part of the files.
  unfoldable pub perform : PatchStep → Progress → Option Progress
  unfolding begin_operation
  perform (stage i) s = some s
  perform (verify i) s =
      if option_eq (content_of (s.workspace.files i.resolved)) i.before_bytes then some s else none
  perform (begin_durable i) s = some (begin_operation s i.resolved)
  perform (record_pre i) s =
      let w : Workspace = s.workspace in
      let id : ℕ = env.new_mutation i.resolved in
      some (record s {
        workspace = record w {
          journal = record_preimage env.sha256 w.journal w.files i.resolved id;
        };
        mutations = s.mutations ++ id ∷ [];
      })
  perform (commit i) s =
      let w : Workspace = s.workspace in
      some (record s {
        workspace = record w { files = put_file w.files i.resolved (after_file i) };
        committed = i ∷ s.committed;
      })
  perform (sync i) s = some s
  perform (record_post i) s =
      let w : Workspace = s.workspace in
      some (record s {
        workspace = record w {
          journal = record_postimage env.sha256 w.journal w.files (env.new_mutation i.resolved);
        };
      })
  perform complete_durable s =
      if null s.durable_operations
      then some s
      else with_rows s (
          complete_file_operations env.sha256 s.workspace.rows s.workspace.files
            s.durable_operations)

  -- The steps one after the other, of which the one with the number `fault` raises an error before
  -- it does anything; and whether one failed.
  unfoldable pub run : Option ℕ → List PatchStep → Progress → Progress × Bool
  unfolding perform is_due
  run fault [] s = (s, false)
  run fault (a ∷ l) s = elim (is_due fault) [
    | true ↦ (s, true)
    | false ↦ elim (perform a s) [ none ↦ (s, true) | some s' ↦ run (one_less fault) l s' ]
  ]

-- The writes of the preimages, of which the one with the number `fault` fails and ends the loop.
unfoldable pub restore : Option ℕ → List Item → FileSystem → FileSystem
restore fault [] fs = fs
restore (some zero) (i ∷ l) fs = fs
restore (some (suc n)) (i ∷ l) fs =
    restore (some n) l (put_file fs i.resolved (written i.before_bytes i.mode))
restore none (i ∷ l) fs = restore none l (put_file fs i.resolved (written i.before_bytes i.mode))

unfoldable pub discard_all : List ℕ → SnapshotJournal → SnapshotJournal
discard_all [] j = j
discard_all (id ∷ l) j = discard_all l (discard_mutation j id)

-- The rollbacks of the runtime store. Each restores a file and then closes its row; of these two steps of
-- each, the one with the number `fault` raises an error, which ends the loop.
unfoldable pub rollback_durable :
    Option ℕ
    → List (Text × Text)
    → List FileOperation
    → FileSystem
    → List FileOperation × FileSystem
rollback_durable fault [] rows fs = (rows, fs)
rollback_durable (some zero) (d ∷ l) rows fs = (rows, fs)
rollback_durable (some (suc zero)) (d ∷ l) rows fs = (rows, (rollback_file_operation rows fs d.0).1)
rollback_durable (some (suc (suc n))) (d ∷ l) rows fs =
    let (rows', fs') = rollback_file_operation rows fs d.0 in rollback_durable (some n) l rows' fs'
rollback_durable none (d ∷ l) rows fs =
    let (rows', fs') = rollback_file_operation rows fs d.0 in rollback_durable none l rows' fs'

-- The write of a preimage and the step of the runtime store that raise an error, by their numbers.
pub record RollbackFaults : Type 0 where
  pub of_write : Option ℕ
  pub of_store : Option ℕ

abbrev pub is_reached : Option ℕ → ℕ → Bool
is_reached none n = false
is_reached (some k) n = ltb k n

-- What the transaction does where a step raised an error.
unfoldable pub roll_back : RollbackFaults → Progress → Workspace
unfolding restore discard_all rollback_durable
roll_back fault s =
    let w : Workspace = s.workspace in
    let files : FileSystem = restore fault.of_write s.committed w.files in
    let (rows, files') =
      rollback_durable fault.of_store (reverse s.durable_operations) w.rows files in
    record { files = files'; journal = discard_all s.mutations w.journal; rows = rows }

-- What is raised behind it; an error of the runtime store is passed on as it is.
abbrev pub rollback_error : RollbackFaults → Progress → PatchError
rollback_error fault s =
    if is_reached fault.of_write (length s.committed)
      || is_reached fault.of_store (length s.durable_operations + length s.durable_operations)
    then rollback_failed
    else rolled_back

abbrev pub started_with : Workspace → Progress
started_with w = record { workspace = w; mutations = []; durable_operations = []; committed = [] }

-- The faults are those of the transaction and of its rollback; `seen` are the files as they were
-- checked, which another process may have changed since then.
module _ (inputs : PatchInputs) (env : PatchEnv) (has_runtime : Bool) where
  abbrev pub transaction : Option ℕ → List Item → Workspace → Progress × Bool
  transaction fault items w = run env has_runtime fault (plan items) (started_with w)

  abbrev pub patch_result : RollbackFaults → Progress × Bool → Option PatchError × Workspace
  patch_result back (s, raised) =
      if raised then (some (rollback_error back s), roll_back back s) else (none, s.workspace)

  unfoldable pub apply_patch :
      Option ℕ
      → RollbackFaults
      → FileSystem
      → List Change
      → Workspace
      → Option PatchError × Workspace
  unfolding preflight plan run
  apply_patch fault back seen changes w =
      elim (preflight inputs w.journal.blob_limit seen changes) [
        | failed e ↦ (some e, w)
        | ok items ↦ patch_result back (transaction fault items w)
      ]
