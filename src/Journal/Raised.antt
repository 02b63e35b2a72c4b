-- ===== src/Journal/Raised.antt =====
-- Calls of `undo` and `redo` (snapshots.py) whose rollback may fail as well.
use noah_code.Prelude.{
  ℕ, ◌<◌, Option, none, some, List, [], ◌∷◌, ◌++◌, ◌≡◌, ◌≢◌, refl, ap, ◌∙◌, sym, length, subst,
}
use mathlib.Core.List.{reverse}
use noah_code.Python.Text.{Text}
use noah_code.Files.{Bytes, FileSystem}
use noah_code.Journal.{TurnJournal, SnapshotJournal, Error, pre_file, post_file}
use noah_code.Journal.Turns.{undo, redo, undo_turn, redo_turn, undone, redone}
use noah_code.Journal.Recorded.{Edit, edited, AllSmall}
use noah_code.Journal.Checks.{check_redo-recorded}
use noah_code.Journal.Rollback.{write_or_roll_back_raises}
use noah_code.Journal.Calls.{recorded_turn, last?-append}
use noah_code.Journal.Steps.{
  with_turns, undo_at, redo_at, undo_error-recorded, length-reverse, length-mutations_of,
}

module _ (sha256 : Bytes → Text) where
  undone_raised :
      (j : SnapshotJournal) (fs : FileSystem) (turn : TurnJournal) (r : FileSystem × Option Error)
      → r.1 ≢ none
      → (undone sha256 j fs turn r).0 ≡ j
  undone_raised j fs turn (fs', none) h = absurd (h refl)
  undone_raised j fs turn (fs', some e) h = refl

  redone_raised :
      (j : SnapshotJournal) (fs : FileSystem) (turn : TurnJournal) (r : FileSystem × Option Error)
      → r.1 ≢ none
      → (redone sha256 j fs turn r).0 ≡ j
  redone_raised j fs turn (fs', none) h = absurd (h refl)
  redone_raised j fs turn (fs', some e) h = refl

  undo_turn_raised :
      (j : SnapshotJournal) (n : ℕ) (again : Option ℕ) (fs : FileSystem) (turn : TurnJournal)
      → n < length (reverse turn.mutations)
      → (undo_turn sha256 j (some n) again fs turn none).0 ≡ j
  unfolding undo_turn
  undo_turn_raised j n again fs turn bound =
      undone_raised j fs turn _
        (write_or_roll_back_raises pre_file post_file n again (reverse turn.mutations) fs bound)

  redo_turn_raised :
      (j : SnapshotJournal) (n : ℕ) (again : Option ℕ) (fs : FileSystem) (turn : TurnJournal)
      → n < length turn.mutations
      → (redo_turn sha256 j (some n) again fs turn none).0 ≡ j
  unfolding redo_turn
  redo_turn_raised j n again fs turn bound =
      redone_raised j fs turn _
        (write_or_roll_back_raises post_file pre_file n again turn.mutations fs bound)

  pub undo-raised :
      (j : SnapshotJournal) (turn_id : ℕ) (turns redos : List TurnJournal) (fs : FileSystem)
      (l : List Edit) (n : ℕ) (again : Option ℕ)
      → AllSmall j.blob_limit fs l
      → n < length l
      → let j' : SnapshotJournal =
          with_turns j (turns ++ recorded_turn sha256 j.blob_limit turn_id fs l ∷ []) redos in
        (undo sha256 j' (some n) again (edited fs l)).0 ≡ j'
  undo-raised j turn_id turns redos fs l n again small bound =
      let turn : TurnJournal = recorded_turn sha256 j.blob_limit turn_id fs l in
      let j' : SnapshotJournal = with_turns j (turns ++ turn ∷ []) redos in
      ap (λ r. r.0)
        (undo_at sha256 j' (some n) again (edited fs l) turn (last?-append turns turn)
          ∙ ap (undo_turn sha256 j' (some n) again (edited fs l) turn)
              (undo_error-recorded sha256 j.blob_limit turn_id fs l small))
      ∙ undo_turn_raised j' n again (edited fs l) turn (
          subst (λ k. n < k)
            (sym (
              length-reverse turn.mutations ∙ length-mutations_of sha256 j.blob_limit turn_id fs l))
            bound)

  pub redo-raised :
      (j : SnapshotJournal) (turn_id : ℕ) (turns redos : List TurnJournal) (fs : FileSystem)
      (l : List Edit) (n : ℕ) (again : Option ℕ)
      → AllSmall j.blob_limit fs l
      → n < length l
      → let j' : SnapshotJournal =
          with_turns j turns (redos ++ recorded_turn sha256 j.blob_limit turn_id fs l ∷ []) in
        (redo sha256 j' (some n) again fs).0 ≡ j'
  redo-raised j turn_id turns redos fs l n again small bound =
      let turn : TurnJournal = recorded_turn sha256 j.blob_limit turn_id fs l in
      let j' : SnapshotJournal = with_turns j turns (redos ++ turn ∷ []) in
      ap (λ r. r.0)
        (redo_at sha256 j' (some n) again fs turn (last?-append redos turn)
          ∙ ap (redo_turn sha256 j' (some n) again fs turn)
              (check_redo-recorded sha256 j.blob_limit turn_id fs fs l [] (λ q. refl) small))
      ∙ redo_turn_raised j' n again fs turn
          (subst (λ k. n < k) (sym (length-mutations_of sha256 j.blob_limit turn_id fs l)) bound)
