-- ===== src/Journal/Bounds.antt =====
-- The length of the lists of `SnapshotJournal` (snapshots.py).
use noah_code.Prelude.{
  ℕ, ◌≤◌, not, ◌||◌, Option, none, some, [], ◌∷◌, ◌++◌, arith, inl, inr, last?, length, null,
  Bool-cases,
}
use noah_code.Files.{Bytes, FileSystem}
use noah_code.Journal.{
  TurnJournal, SnapshotJournal, journal_max_turns, Error, Text, write_or_roll_back, check_redo,
  pre_file, post_file, reverse,
}
use noah_code.Journal.Turns.{
  ended, undone, redone, end_turn, undo, redo, undo_turn, redo_turn, undo_error, undo_last,
  redo_last,
}
use noah_code.Journal.Calls.{cap_turns-bound, length-front}
use noah_code.Python.Text.{Text}

-- The undoable and the redoable turns of a journal are at most `JOURNAL_MAX_TURNS` each.
abbrev pub IsBounded : SnapshotJournal → Type 0
IsBounded j = (length j.turns ≤ journal_max_turns) × (length j.redos ≤ journal_max_turns)

ended-IsBounded :
    (j : SnapshotJournal) (o : Option TurnJournal) → IsBounded j → IsBounded (ended j o)
ended-IsBounded j none h = h
ended-IsBounded j (some t) h = elim (Bool-cases (not (null t.mutations) || t.shell_may_bypass)) [
  | inl keeps ↦ rw keeps (cap_turns-bound (j.turns ++ t ∷ []), omega arith)
  | inr empty ↦ rw empty h
]

module _ (sha256 : Bytes → Text) where
  undone-IsBounded :
      (j : SnapshotJournal) (fs : FileSystem) (turn : TurnJournal) (r : FileSystem × Option Error)
      → IsBounded j
      → IsBounded (undone sha256 j fs turn r).0
  undone-IsBounded j fs turn (fs', some e) h = h
  undone-IsBounded j fs turn (fs', none) h =
      (omega (arith, h.0, length-front j.turns), cap_turns-bound (j.redos ++ turn ∷ []))

  redone-IsBounded :
      (j : SnapshotJournal) (fs : FileSystem) (turn : TurnJournal) (r : FileSystem × Option Error)
      → IsBounded j
      → IsBounded (redone sha256 j fs turn r).0
  redone-IsBounded j fs turn (fs', some e) h = h
  redone-IsBounded j fs turn (fs', none) h =
      (cap_turns-bound (j.turns ++ turn ∷ []), omega (arith, h.1, length-front j.redos))

  undo_turn-IsBounded :
      (j : SnapshotJournal) (fault again : Option ℕ) (fs : FileSystem) (turn : TurnJournal)
      (e : Option Error)
      → IsBounded j
      → IsBounded (undo_turn sha256 j fault again fs turn e).0
  unfolding undo_turn
  undo_turn-IsBounded j fault again fs turn none h =
      undone-IsBounded j fs turn
        (write_or_roll_back pre_file post_file fault again (reverse turn.mutations) fs) h
  undo_turn-IsBounded j fault again fs turn (some e) h = h

  redo_turn-IsBounded :
      (j : SnapshotJournal) (fault again : Option ℕ) (fs : FileSystem) (turn : TurnJournal)
      (e : Option Error)
      → IsBounded j
      → IsBounded (redo_turn sha256 j fault again fs turn e).0
  unfolding redo_turn
  redo_turn-IsBounded j fault again fs turn none h =
      redone-IsBounded j fs turn
        (write_or_roll_back post_file pre_file fault again turn.mutations fs) h
  redo_turn-IsBounded j fault again fs turn (some e) h = h

  undo_last-IsBounded :
      (j : SnapshotJournal) (fault again : Option ℕ) (fs : FileSystem) (o : Option TurnJournal)
      → IsBounded j
      → IsBounded (undo_last sha256 j fault again fs o).0
  undo_last-IsBounded j fault again fs none h = h
  undo_last-IsBounded j fault again fs (some turn) h =
      undo_turn-IsBounded j fault again fs turn (undo_error sha256 fs turn) h

  redo_last-IsBounded :
      (j : SnapshotJournal) (fault again : Option ℕ) (fs : FileSystem) (o : Option TurnJournal)
      → IsBounded j
      → IsBounded (redo_last sha256 j fault again fs o).0
  redo_last-IsBounded j fault again fs none h = h
  redo_last-IsBounded j fault again fs (some turn) h =
      redo_turn-IsBounded j fault again fs turn (check_redo sha256 fs [] turn.mutations) h

  -- A bounded journal is bounded behind the end of a turn, and behind `undo` and `redo`, whether
  -- they raise an error or not.
  pub turns-bound :
      (j : SnapshotJournal) (fault again : Option ℕ) (fs : FileSystem)
      → IsBounded j
      → IsBounded (end_turn j)
        × IsBounded (undo sha256 j fault again fs).0
        × IsBounded (redo sha256 j fault again fs).0
  unfolding end_turn undo redo
  turns-bound j fault again fs h = (
    ended-IsBounded j j.current h,
    undo_last-IsBounded j fault again fs (last? j.turns) h,
    redo_last-IsBounded j fault again fs (last? j.redos) h,
  )
