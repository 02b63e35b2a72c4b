-- ===== src/Journal/Undo.antt =====
-- `undo` and `redo` of `SnapshotJournal` (snapshots.py) behind a turn that was recorded.
use noah_code.Prelude.{ℕ, ◌<◌, Option, none, some, List, [], ◌∷◌, ◌≡◌, refl, ap, ◌∙◌, length}
use noah_code.Python.Text.{Text}
use noah_code.Files.{Bytes, FileSystem}
use noah_code.Journal.{TurnJournal, SnapshotJournal, write_failed, Error}
use noah_code.Journal.Turns.{undo, redo}
use noah_code.Journal.Recorded.{Edit, edited, AllSmall}
use noah_code.Journal.Calls.{after_turn, after_turn_lem, recorded_turn, FreshIds, older}
use noah_code.Journal.Steps.{
  undo-recorded, undo-fault, with_turns, cap_turns-singleton, redo-recorded, redo-fault,
  redo_result, cap_turns-older,
}
use noah_code.Journal.Raised.{undo-raised, redo-raised}

module _ (sha256 : Bytes → Text) where
  -- After a turn of at least one edit, whose mutations have new ids and whose files are all within
  -- the blob limit, `undo` raises no error and gives the files from before the turn, and `redo`
  -- behind it raises none and gives the edited files and the same journal.
  pub undo-redo :
      (j : SnapshotJournal) (turn_id : ℕ) (fs : FileSystem) (e : Edit) (l : List Edit)
      → FreshIds [] (e ∷ l)
      → AllSmall j.blob_limit fs (e ∷ l)
      → let done : SnapshotJournal = after_turn sha256 j turn_id fs (e ∷ l) in
        let back : SnapshotJournal × FileSystem × Option Error =
          undo sha256 done none none (edited fs (e ∷ l)) in
        (back.1 ≡ fs)
        × (back.2 ≡ none)
        × (redo sha256 back.0 none none back.1 ≡ (done, edited fs (e ∷ l), none))
  undo-redo j turn_id fs e l fresh small =
      let turn : TurnJournal = recorded_turn sha256 j.blob_limit turn_id fs (e ∷ l) in
      rw (after_turn_lem sha256 j turn_id fs e l fresh) (
        rw (undo-recorded sha256 j turn_id (older j.turns) [] fs (e ∷ l) small) (
          refl,
          refl,
          ap (λ k. redo sha256 (with_turns j (older j.turns) k) none none fs)
                (cap_turns-singleton turn)
              ∙ redo-recorded sha256 j turn_id (older j.turns) [] fs (e ∷ l) small
              ∙ ap (λ k. redo_result (with_turns j k []) (edited fs (e ∷ l)))
                  (cap_turns-older j.turns turn),
        ))

  -- Behind a turn of at least one edit, whose mutations have new ids and whose files are all within the
  -- blob limit: where a write of the `undo` raises an error, whichever it is, and no write of the
  -- rollback does, the journal and the files are as they were before the `undo`; so are they where a
  -- write of the `redo` does. Where a write of the rollback raises an error as well, whichever it is,
  -- the journal is still as it was.
  pub undo-redo-fault :
      (j : SnapshotJournal) (turn_id : ℕ) (fs : FileSystem) (e : Edit) (l : List Edit) (n : ℕ)
      (again : Option ℕ)
      → FreshIds [] (e ∷ l)
      → AllSmall j.blob_limit fs (e ∷ l)
      → n < length (e ∷ l)
      → let done : SnapshotJournal = after_turn sha256 j turn_id fs (e ∷ l) in
        let now : FileSystem = edited fs (e ∷ l) in
        let back : SnapshotJournal = (undo sha256 done none none now).0 in
        (undo sha256 done (some n) none now ≡ (done, now, some write_failed))
        × (redo sha256 back (some n) none fs ≡ (back, fs, some write_failed))
        × ((undo sha256 done (some n) again now).0 ≡ done)
        × ((redo sha256 back (some n) again fs).0 ≡ back)
  undo-redo-fault j turn_id fs e l n again fresh small bound =
      let turn : TurnJournal = recorded_turn sha256 j.blob_limit turn_id fs (e ∷ l) in
      rw (after_turn_lem sha256 j turn_id fs e l fresh) (
        undo-fault sha256 j turn_id (older j.turns) [] fs (e ∷ l) n small bound,
        rw (undo-recorded sha256 j turn_id (older j.turns) [] fs (e ∷ l) small) (
            rw (cap_turns-singleton turn)
              (redo-fault sha256 j turn_id (older j.turns) [] fs (e ∷ l) n small bound)),
        undo-raised sha256 j turn_id (older j.turns) [] fs (e ∷ l) n again small bound,
        rw (undo-recorded sha256 j turn_id (older j.turns) [] fs (e ∷ l) small) (
            rw (cap_turns-singleton turn)
              (redo-raised sha256 j turn_id (older j.turns) [] fs (e ∷ l) n again small bound)),
      )
