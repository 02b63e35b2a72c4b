-- ===== src/Journal/Turns.antt =====
-- The calls of `SnapshotJournal` (snapshots.py).
use noah_code.Prelude.{
  ℕ, true, false, ◌||◌, not, Option, none, some, List, [], ◌∷◌, ◌++◌, map, ◌==◌, if◌then◌else◌,
  null, last?, keep,
}
use mathlib.Core.List.{reverse}
use noah_code.Python.Text.{Text}
use noah_code.Files.{Bytes, FileSystem}
use noah_code.Journal.{
  FileMutation, TurnJournal, SnapshotJournal, Error, nothing_left, shell_bypass, cap_turns,
  preimage, with_postimage, pre_file, post_file, check_undo, check_redo, write_or_roll_back,
}

abbrev pub front : List TurnJournal → List TurnJournal
front [] = []
front (x ∷ []) = []
front (x ∷ y ∷ l) = x ∷ front (y ∷ l)

-- The uuid of the turn is an argument.
unfoldable pub begin_turn : SnapshotJournal → ℕ → SnapshotJournal
begin_turn j turn_id = record j {
  current = some (record { turn_id = turn_id; mutations = []; shell_may_bypass = false });
}

abbrev pub ended : SnapshotJournal → Option TurnJournal → SnapshotJournal
ended j none = j
ended j (some t) =
    if not (null t.mutations) || t.shell_may_bypass
    then record j { turns = cap_turns (j.turns ++ t ∷ []); redos = [] }
    else j

unfoldable pub end_turn : SnapshotJournal → SnapshotJournal
end_turn j = record (ended j j.current) { current = none }

abbrev pub with_mutations : (List FileMutation → List FileMutation) → TurnJournal → TurnJournal
with_mutations f t = record t { mutations = f t.mutations }

abbrev pub in_turn : (TurnJournal → TurnJournal) → SnapshotJournal → SnapshotJournal
in_turn f j = record j { current = elim j.current [ none ↦ none | some t ↦ some (f t) ] }

unfoldable pub mark_shell_bypass : SnapshotJournal → SnapshotJournal
mark_shell_bypass j = in_turn (λ t. record t { shell_may_bypass = true }) j

abbrev pub turn_of : Option TurnJournal → ℕ
turn_of none = 0
turn_of (some t) = t.turn_id

module _ (sha256 : Bytes → Text) where
  -- The mutation's uuid is an argument.
  unfoldable pub record_preimage : SnapshotJournal → FileSystem → Text → ℕ → SnapshotJournal
  record_preimage j fs path id =
      in_turn
        (with_mutations
          (λ l. l ++ preimage sha256 j.blob_limit id (turn_of j.current) path (fs path) ∷ []))
        j

  abbrev pub set_postimage : SnapshotJournal → FileSystem → ℕ → FileMutation → FileMutation
  set_postimage j fs id m =
      if id == m.id then with_postimage sha256 j.blob_limit (fs m.path) m else m

  unfoldable pub record_postimage : SnapshotJournal → FileSystem → ℕ → SnapshotJournal
  record_postimage j fs id = in_turn (with_mutations (map (set_postimage j fs id))) j

unfoldable pub discard_mutation : SnapshotJournal → ℕ → SnapshotJournal
discard_mutation j id = in_turn (with_mutations (keep (λ m. not (id == m.id)))) j

module _ (sha256 : Bytes → Text) where
  unfoldable pub undo_error : FileSystem → TurnJournal → Option Error
  unfolding check_undo
  undo_error fs turn =
      if turn.shell_may_bypass
      then some shell_bypass
      else check_undo sha256 fs [] (reverse turn.mutations)

  -- `validate_undo`
  unfoldable pub validate_undo : SnapshotJournal → FileSystem → Option Error
  unfolding undo_error
  validate_undo j fs = elim (last? j.turns) [
    | none ↦ some nothing_left
    | some turn ↦ undo_error fs turn
  ]

  abbrev pub undone :
      SnapshotJournal
      → FileSystem
      → TurnJournal
      → FileSystem × Option Error
      → SnapshotJournal × FileSystem × Option Error
  undone j fs turn (fs', some e) = (j, fs', some e)
  undone j fs turn (fs', none) =
      (record j { turns = front j.turns; redos = cap_turns (j.redos ++ turn ∷ []) }, fs', none)

  unfoldable pub undo_turn :
      SnapshotJournal
      → Option ℕ
      → Option ℕ
      → FileSystem
      → TurnJournal
      → Option Error
      → SnapshotJournal × FileSystem × Option Error
  unfolding write_or_roll_back
  undo_turn j fault again fs turn (some e) = (j, fs, some e)
  undo_turn j fault again fs turn none =
      undone j fs turn
        (write_or_roll_back pre_file post_file fault again (reverse turn.mutations) fs)

  abbrev pub undo_last :
      SnapshotJournal
      → Option ℕ
      → Option ℕ
      → FileSystem
      → Option TurnJournal
      → SnapshotJournal × FileSystem × Option Error
  undo_last j fault again fs none = (j, fs, some nothing_left)
  undo_last j fault again fs (some turn) = undo_turn j fault again fs turn (undo_error fs turn)

  -- `fault` is the number of the write that raises an error, and `again` that of the write of the rollback
  -- that does.
  unfoldable pub undo :
      SnapshotJournal
      → Option ℕ
      → Option ℕ
      → FileSystem
      → SnapshotJournal × FileSystem × Option Error
  unfolding undo_error undo_turn
  undo j fault again fs = undo_last j fault again fs (last? j.turns)

  abbrev pub redone :
      SnapshotJournal
      → FileSystem
      → TurnJournal
      → FileSystem × Option Error
      → SnapshotJournal × FileSystem × Option Error
  redone j fs turn (fs', some e) = (j, fs', some e)
  redone j fs turn (fs', none) =
      (record j { turns = cap_turns (j.turns ++ turn ∷ []); redos = front j.redos }, fs', none)

  unfoldable pub redo_turn :
      SnapshotJournal
      → Option ℕ
      → Option ℕ
      → FileSystem
      → TurnJournal
      → Option Error
      → SnapshotJournal × FileSystem × Option Error
  unfolding write_or_roll_back
  redo_turn j fault again fs turn (some e) = (j, fs, some e)
  redo_turn j fault again fs turn none =
      redone j fs turn (write_or_roll_back post_file pre_file fault again turn.mutations fs)

  abbrev pub redo_last :
      SnapshotJournal
      → Option ℕ
      → Option ℕ
      → FileSystem
      → Option TurnJournal
      → SnapshotJournal × FileSystem × Option Error
  redo_last j fault again fs none = (j, fs, some nothing_left)
  redo_last j fault again fs (some turn) =
      redo_turn j fault again fs turn (check_redo sha256 fs [] turn.mutations)

  unfoldable pub redo :
      SnapshotJournal
      → Option ℕ
      → Option ℕ
      → FileSystem
      → SnapshotJournal × FileSystem × Option Error
  unfolding redo_turn check_redo
  redo j fault again fs = redo_last j fault again fs (last? j.redos)
