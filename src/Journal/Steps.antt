-- ===== src/Journal/Steps.antt =====
-- The steps of `undo` and of `redo` (snapshots.py) on a turn that was recorded.
use noah_code.Prelude.{
  length-drop, length-append, drop, ℕ, suc, ◌+◌, ◌<◌, Option, none, some, List, [], ◌∷◌, ◌++◌, ◌≡◌,
  refl, ap, sym, ◌∙◌, arith, length, last?, subst, ◌-◌,
}
use mathlib.Core.List.{reverse, reverse-cons, append-nil}
use noah_code.Python.Text.{Text}
use noah_code.Files.{Bytes, FileSystem}
use noah_code.Journal.{
  FileMutation, TurnJournal, SnapshotJournal, journal_max_turns, cap_turns, pre_file, post_file,
  check_undo, check_redo, write_failed, Error,
}
use noah_code.Journal.Turns.{
  undo, redo, undo_turn, redo_turn, undo_error, front, undo_last, redo_last,
}
use noah_code.Journal.Recorded.{
  Edit, edit, edited, AllSmall, mutations_of, fold_writes, fold_writes-undo, fold_writes-redo,
}
use noah_code.Journal.Checks.{check_undo-recorded, check_redo-recorded}
use noah_code.Journal.Rollback.{
  write_or_roll_back_fault, write_or_roll_back_done, undo-Restorable, redo-Restorable, Restorable,
}
use noah_code.Journal.Calls.{recorded_turn, older, last?-append, front-append, cap_turns-append}

pub cap_turns-singleton : (t : TurnJournal) → cap_turns (t ∷ []) ≡ t ∷ []
unfolding cap_turns drop
cap_turns-singleton t = refl

pub cap_turns-older :
    (l : List TurnJournal) (t : TurnJournal) → cap_turns (older l ++ t ∷ []) ≡ older l ++ t ∷ []
unfolding drop
cap_turns-older l t =
    let all_fit : length (older l) + 1 - journal_max_turns ≡ 0 =
      omega (arith, length-drop (length l + 1 - journal_max_turns) l) in
    cap_turns-append (older l) t ∙ ap (λ n. drop n (older l) ++ t ∷ []) all_fit

pub length-reverse : (l : List FileMutation) → length (reverse l) ≡ length l
length-reverse [] = refl
length-reverse (m ∷ l) =
    ap length (reverse-cons m l)
    ∙ omega (arith, length-append (reverse l) (m ∷ []), length-reverse l)

abbrev pub with_turns : SnapshotJournal → List TurnJournal → List TurnJournal → SnapshotJournal
with_turns j turns redos = record j { turns = turns; redos = redos; current = none }

abbrev pub redo_result : SnapshotJournal → FileSystem → SnapshotJournal × FileSystem × Option Error
redo_result j fs = (j, fs, none)

module _ (sha256 : Bytes → Text) where
  pub undo_error-recorded :
      (limit turn_id : ℕ) (fs : FileSystem) (l : List Edit)
      → AllSmall limit fs l
      → undo_error sha256 (edited fs l) (recorded_turn sha256 limit turn_id fs l) ≡ none
  unfolding undo_error check_undo
  undo_error-recorded limit turn_id fs l small =
      ap (check_undo sha256 (edited fs l) [])
        (sym (append-nil (reverse (mutations_of sha256 limit turn_id fs l))))
      ∙ check_undo-recorded sha256 limit turn_id (edited fs l) fs l [] [] (λ q. refl) small

  pub undo_at :
      (j : SnapshotJournal) (fault again : Option ℕ) (fs : FileSystem) (turn : TurnJournal)
      → last? j.turns ≡ some turn
      → undo sha256 j fault again fs
        ≡ undo_turn sha256 j fault again fs turn (undo_error sha256 fs turn)
  unfolding undo
  undo_at j fault again fs turn h = ap (undo_last sha256 j fault again fs) h

  pub redo_at :
      (j : SnapshotJournal) (fault again : Option ℕ) (fs : FileSystem) (turn : TurnJournal)
      → last? j.redos ≡ some turn
      → redo sha256 j fault again fs
        ≡ redo_turn sha256 j fault again fs turn (check_redo sha256 fs [] turn.mutations)
  unfolding redo
  redo_at j fault again fs turn h = ap (redo_last sha256 j fault again fs) h

  undo_turn_done :
      (j : SnapshotJournal) (fs : FileSystem) (turn : TurnJournal)
      → undo_turn sha256 j none none fs turn none ≡ (
        record j { turns = front j.turns; redos = cap_turns (j.redos ++ turn ∷ []) },
        fold_writes pre_file (reverse turn.mutations) fs,
        none,
      )
  unfolding undo_turn
  undo_turn_done j fs turn =
      rw (write_or_roll_back_done pre_file post_file none (reverse turn.mutations) fs) refl

  redo_turn_done :
      (j : SnapshotJournal) (fs : FileSystem) (turn : TurnJournal)
      → redo_turn sha256 j none none fs turn none ≡ (
        record j { turns = cap_turns (j.turns ++ turn ∷ []); redos = front j.redos },
        fold_writes post_file turn.mutations fs,
        none,
      )
  unfolding redo_turn
  redo_turn_done j fs turn =
      rw (write_or_roll_back_done post_file pre_file none turn.mutations fs) refl

  undo_turn_fault :
      (j : SnapshotJournal) (n : ℕ) (fs : FileSystem) (turn : TurnJournal)
      → Restorable pre_file post_file fs (reverse turn.mutations)
      → n < length (reverse turn.mutations)
      → undo_turn sha256 j (some n) none fs turn none ≡ (j, fs, some write_failed)
  unfolding undo_turn
  undo_turn_fault j n fs turn h bound =
      rw (write_or_roll_back_fault pre_file post_file n (reverse turn.mutations) fs h bound) refl

  redo_turn_fault :
      (j : SnapshotJournal) (n : ℕ) (fs : FileSystem) (turn : TurnJournal)
      → Restorable post_file pre_file fs turn.mutations
      → n < length turn.mutations
      → redo_turn sha256 j (some n) none fs turn none ≡ (j, fs, some write_failed)
  unfolding redo_turn
  redo_turn_fault j n fs turn h bound =
      rw (write_or_roll_back_fault post_file pre_file n turn.mutations fs h bound) refl

  pub length-mutations_of :
      (limit turn_id : ℕ) (fs : FileSystem) (l : List Edit)
      → length (mutations_of sha256 limit turn_id fs l) ≡ length l
  unfolding mutations_of
  length-mutations_of limit turn_id fs [] = refl
  length-mutations_of limit turn_id fs (e ∷ l) =
      ap suc (length-mutations_of limit turn_id (edit fs e) l)

  pub undo-recorded :
      (j : SnapshotJournal) (turn_id : ℕ) (turns redos : List TurnJournal) (fs : FileSystem)
      (l : List Edit)
      → AllSmall j.blob_limit fs l
      → undo sha256
          (with_turns j (turns ++ recorded_turn sha256 j.blob_limit turn_id fs l ∷ []) redos)
          none
          none
          (edited fs l)
        ≡ (
          with_turns j turns
              (cap_turns (redos ++ recorded_turn sha256 j.blob_limit turn_id fs l ∷ [])),
          fs,
          none,
        )
  undo-recorded j turn_id turns redos fs l small =
      let turn : TurnJournal = recorded_turn sha256 j.blob_limit turn_id fs l in
      let j' : SnapshotJournal = with_turns j (turns ++ turn ∷ []) redos in
      undo_at j' none none (edited fs l) turn (last?-append turns turn)
      ∙ ap (undo_turn sha256 j' none none (edited fs l) turn)
          (undo_error-recorded j.blob_limit turn_id fs l small)
      ∙ undo_turn_done j' (edited fs l) turn
      ∙ ap
          (λ k. (
            with_turns j k (cap_turns (redos ++ turn ∷ [])),
            fold_writes pre_file (reverse turn.mutations) (edited fs l),
            none,
          ))
          (front-append turns turn)
      ∙ ap (λ g. (with_turns j turns (cap_turns (redos ++ turn ∷ [])), g, none))
          (fold_writes-undo sha256 j.blob_limit turn_id fs l small)

  pub redo-recorded :
      (j : SnapshotJournal) (turn_id : ℕ) (turns redos : List TurnJournal) (fs : FileSystem)
      (l : List Edit)
      → AllSmall j.blob_limit fs l
      → redo sha256
          (with_turns j turns (redos ++ recorded_turn sha256 j.blob_limit turn_id fs l ∷ []))
          none
          none
          fs
        ≡ (
          with_turns j
              (cap_turns (turns ++ recorded_turn sha256 j.blob_limit turn_id fs l ∷ []))
              redos,
          edited fs l,
          none,
        )
  redo-recorded j turn_id turns redos fs l small =
      let turn : TurnJournal = recorded_turn sha256 j.blob_limit turn_id fs l in
      let j' : SnapshotJournal = with_turns j turns (redos ++ turn ∷ []) in
      redo_at j' none none fs turn (last?-append redos turn)
      ∙ ap (redo_turn sha256 j' none none fs turn)
          (check_redo-recorded sha256 j.blob_limit turn_id fs fs l [] (λ q. refl) small)
      ∙ redo_turn_done j' fs turn
      ∙ ap
          (λ k. (
            with_turns j (cap_turns (turns ++ turn ∷ [])) k,
            fold_writes post_file turn.mutations fs,
            none,
          ))
          (front-append redos turn)
      ∙ ap (λ g. (with_turns j (cap_turns (turns ++ turn ∷ [])) redos, g, none))
          (fold_writes-redo sha256 j.blob_limit turn_id fs l small)

  pub undo-fault :
      (j : SnapshotJournal) (turn_id : ℕ) (turns redos : List TurnJournal) (fs : FileSystem)
      (l : List Edit) (n : ℕ)
      → AllSmall j.blob_limit fs l
      → n < length l
      → undo sha256
          (with_turns j (turns ++ recorded_turn sha256 j.blob_limit turn_id fs l ∷ []) redos)
          (some n)
          none
          (edited fs l)
        ≡ (
          with_turns j (turns ++ recorded_turn sha256 j.blob_limit turn_id fs l ∷ []) redos,
          edited fs l,
          some write_failed,
        )
  undo-fault j turn_id turns redos fs l n small bound =
      let turn : TurnJournal = recorded_turn sha256 j.blob_limit turn_id fs l in
      let j' : SnapshotJournal = with_turns j (turns ++ turn ∷ []) redos in
      undo_at j' (some n) none (edited fs l) turn (last?-append turns turn)
      ∙ ap (undo_turn sha256 j' (some n) none (edited fs l) turn)
          (undo_error-recorded j.blob_limit turn_id fs l small)
      ∙ undo_turn_fault j' n (edited fs l) turn
          (undo-Restorable sha256 j.blob_limit turn_id fs l small)
          (subst (λ k. n < k)
            (sym (length-reverse turn.mutations ∙ length-mutations_of j.blob_limit turn_id fs l))
            bound)

  pub redo-fault :
      (j : SnapshotJournal) (turn_id : ℕ) (turns redos : List TurnJournal) (fs : FileSystem)
      (l : List Edit) (n : ℕ)
      → AllSmall j.blob_limit fs l
      → n < length l
      → redo sha256
          (with_turns j turns (redos ++ recorded_turn sha256 j.blob_limit turn_id fs l ∷ []))
          (some n)
          none
          fs
        ≡ (
          with_turns j turns (redos ++ recorded_turn sha256 j.blob_limit turn_id fs l ∷ []),
          fs,
          some write_failed,
        )
  redo-fault j turn_id turns redos fs l n small bound =
      let turn : TurnJournal = recorded_turn sha256 j.blob_limit turn_id fs l in
      let j' : SnapshotJournal = with_turns j turns (redos ++ turn ∷ []) in
      redo_at j' (some n) none fs turn (last?-append redos turn)
      ∙ ap (redo_turn sha256 j' (some n) none fs turn)
          (check_redo-recorded sha256 j.blob_limit turn_id fs fs l [] (λ q. refl) small)
      ∙ redo_turn_fault j' n fs turn (redo-Restorable sha256 j.blob_limit turn_id fs l small)
          (subst (λ k. n < k) (sym (length-mutations_of j.blob_limit turn_id fs l)) bound)
