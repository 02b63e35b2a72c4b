-- ===== src/Store/FileOperations.antt =====
-- The table `file_operations` (runtime_state.py): the writes that are under way, and their recovery.
use noah_code.Prelude.{
  ℕ, Bool, true, false, Option, none, some, List, [], ◌∷◌, ◌++◌, map, if◌then◌else◌, keep, null,
  ltb,
}
use noah_code.Python.Text.{Text, codes}
use noah_code.Files.{Bytes, File, FileSystem, put_file}
use noah_code.Store.Table.{find_row, update_rows}
use noah_code.Store.Events.{EventLog, text, texts, event}

pub data OperationState : Type 0 where
  started committed rolled_back recovered : OperationState

pub record FileOperation : Type 0 where
  pub operation_id : Text
  pub operation_group : Text
  pub path : Text
  pub existed_before : Bool
  pub pre_bytes : Option Bytes
  pub pre_mode : Option ℕ
  pub pre_hash : Option Text
  pub post_hash : Option Text
  pub state : OperationState
  pub created_at : ℕ

abbrev pub id_of : FileOperation → Text
id_of r = r.operation_id

abbrev pub path_of : FileOperation → Text
path_of r = r.path

abbrev pub is_started : FileOperation → Bool
is_started r = elim r.state [ started ↦ true | _ ↦ false ]

-- `_restore_file`; a file that is made without a mode has that of `mkstemp`.
abbrev pub restored_file : Option Bytes → Option ℕ → Option File
restored_file none mode = none
restored_file (some content) none = some (record { content = content; mode = 0o600 })
restored_file (some content) (some mode) = some (record { content = content; mode = mode })

-- `before if existed else None`, as `_restore_file` writes it
abbrev pub preimage : FileOperation → Option File
preimage r = restored_file (if r.existed_before then r.pre_bytes else none) r.pre_mode

-- A new state; the preimage is no longer stored.
abbrev pub close : OperationState → FileOperation → FileOperation
close s r = record r { state = s; pre_bytes = none }

module _ (sha256 : Bytes → Text) where
  abbrev pub digest : Option File → Option Text
  digest none = none
  digest (some f) = some (sha256 f.content)

  -- The path is canonical, the uuid and the time are arguments.
  unfoldable pub begin_file_operation :
      List FileOperation → FileSystem → Text → Text → Text → ℕ → List FileOperation × Text
  begin_file_operation rows fs path operation_group uuid now =
      let row : FileOperation = record {
        operation_id = uuid;
        operation_group = if null operation_group then uuid else operation_group;
        path = path;
        existed_before = elim (fs path) [ none ↦ false | some f ↦ true ];
        pre_bytes = elim (fs path) [ none ↦ none | some f ↦ some f.content ];
        pre_mode = elim (fs path) [ none ↦ none | some f ↦ some f.mode ];
        pre_hash = digest (fs path);
        post_hash = none;
        state = started;
        created_at = now;
      } in
      (rows ++ row ∷ [], uuid)

  abbrev pub commit : Option Text → FileOperation → FileOperation
  commit post_hash r = record (close committed r) { post_hash = post_hash }

  -- `none` is the error that the operation is not active.
  unfoldable pub complete_file_operation :
      List FileOperation → FileSystem → Text → Text → Option (List FileOperation)
  complete_file_operation rows fs operation_id path = elim (find_row id_of operation_id rows) [
    | none ↦ none
    | some r ↦
        if is_started r
        then some (update_rows id_of operation_id is_started (commit (digest (fs path))) rows)
        else none
  ]

  -- One transaction: where an operation is not active, no row changes.
  unfoldable pub complete_file_operations :
      List FileOperation → FileSystem → List (Text × Text) → Option (List FileOperation)
  unfolding complete_file_operation
  complete_file_operations rows fs [] = some rows
  complete_file_operations rows fs ((operation_id, path) ∷ l) =
      elim (complete_file_operation rows fs operation_id path) [
        | none ↦ none
        | some rows' ↦ complete_file_operations rows' fs l
      ]

abbrev pub rolled :
    List FileOperation → FileSystem → Text → Option FileOperation → List FileOperation × FileSystem
rolled rows fs operation_id none = (rows, fs)
rolled rows fs operation_id (some r) =
    if is_started r
    then (
      update_rows id_of operation_id is_started (close rolled_back) rows,
      put_file fs r.path (preimage r),
    )
    else (rows, fs)

unfoldable pub rollback_file_operation :
    List FileOperation → FileSystem → Text → List FileOperation × FileSystem
rollback_file_operation rows fs operation_id =
    rolled rows fs operation_id (find_row id_of operation_id rows)

-- What the recovery displaced: `displaced` and its content file.
pub record Backup : Type 0 where
  pub path : Text
  pub operation_id : Text
  pub displaced : Option File

-- The table, the workspace, the recovery directory, what is in it, and the events.
pub record Recovery : Type 0 where
  pub rows : List FileOperation
  pub files : FileSystem
  pub recovery_dir : Text
  pub backups : List Backup
  pub log : EventLog

-- ORDER BY created_at DESC
abbrev pub insert_newest : FileOperation → List FileOperation → List FileOperation
insert_newest x [] = x ∷ []
insert_newest x (y ∷ l) =
    let rest : List FileOperation = insert_newest x l in
    if ltb x.created_at y.created_at then y ∷ rest else x ∷ y ∷ l

abbrev pub by_newest : List FileOperation → List FileOperation
by_newest [] = []
by_newest (x ∷ l) = insert_newest x (by_newest l)

-- One round of the loop of `recover_file_operations`.
abbrev pub recover_row : Recovery → FileOperation → Recovery
recover_row s r = record s {
  rows = update_rows id_of r.operation_id is_started (close recovered) s.rows;
  files = put_file s.files r.path (preimage r);
  backups =
      s.backups
      ++ record { path = r.path; operation_id = r.operation_id; displaced = s.files r.path } ∷ [];
}

unfoldable pub recover_rows : Recovery → List FileOperation → Recovery
recover_rows s [] = s
recover_rows s (r ∷ l) = recover_rows (recover_row s r) l

unfoldable pub recover_file_operations : Recovery → Recovery × List Text
unfolding recover_rows
recover_file_operations s =
    let l : List FileOperation = by_newest (keep is_started s.rows) in
    let s' : Recovery = recover_rows s l in
    let paths : List Text = map path_of l in
    if null l then (s', []) else (
      record s' {
        log =
            event s'.log (codes "recovery.files")
              ((codes "paths", texts paths) ∷ (codes "backups", text s'.recovery_dir) ∷ []);
      },
      paths,
    )
