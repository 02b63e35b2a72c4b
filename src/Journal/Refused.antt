-- ===== src/Journal/Refused.antt =====
-- The refusals of `undo` of `SnapshotJournal` (snapshots.py).
use noah_code.Prelude.{
  ℕ, true, false, Option, none, some, List, [], ◌∷◌, ◌++◌, ◌≡◌, ◌≢◌, refl, ap, arith, inl, inr,
  last?, ◌∙◌, Bool-cases, Bool, any, any-append, sym, subst,
}
use mathlib.Core.List.{reverse, reverse-append, reverse-cons, append_assoc}
use noah_code.Python.Text.{Text, text_eq}
use noah_code.Files.{Bytes, FileSystem}
use noah_code.Journal.{
  option_eq, SnapshotJournal, check_undo, TurnJournal, FileMutation, file_hash, Error, first_error,
  simulated_hash, expected_pre,
}
use noah_code.Journal.Turns.{undo_error, undo, undo_turn}
use noah_code.Python.Text.Laws.{text_eq_iff}
use noah_code.Journal.Steps.{undo_at}

option_eq_sound : (x y : Option Text) → option_eq x y ≡ true → x ≡ y
option_eq_sound none none h = refl
option_eq_sound (some a) (some b) h = ap some ((text_eq_iff a b).0 h)
option_eq_sound none (some b) h = ground (arith, h)
option_eq_sound (some a) none h = ground (arith, h)

first_error_some : (a b : Option Error) → b ≢ none → first_error a b ≢ none
first_error_some none b h = h
first_error_some (some e) b h = ground arith

any-reverse : (q : FileMutation → Bool) (l : List FileMutation) → any q (reverse l) ≡ any q l
any-reverse q [] = refl
any-reverse q (m ∷ l) =
    ap (any q) (reverse-cons m l)
    ∙ ground (arith, any-append q (reverse l) (m ∷ []), any-reverse q l)

module _ (sha256 : Bytes → Text) where
  -- The check of the mutations that come before does not hide that of this one.
  check_undo-changed :
      (fs : FileSystem) (simulated : List (Text × Option Text)) (later : List FileMutation)
      (m : FileMutation) (before : List FileMutation)
      → any (λ x. text_eq x.path m.path) later ≡ false
      → simulated_hash sha256 simulated fs m.path ≢ m.post_hash
      → check_undo sha256 fs simulated (later ++ m ∷ before) ≢ none
  unfolding check_undo
  check_undo-changed fs simulated [] m before off other =
      elim (Bool-cases (option_eq (simulated_hash sha256 simulated fs m.path) m.post_hash)) [
        | inl same ↦ absurd (other (option_eq_sound _ m.post_hash same))
        | inr different ↦ rw different (ground arith)
      ]
  check_undo-changed fs simulated (x ∷ later) m before off other = first_error_some _ _ (
      check_undo-changed fs ((x.path, expected_pre x) ∷ simulated) later m before
        (ground (arith, off)) (rw (first_false off) other))
    where
      first_false :
          any (λ y. text_eq y.path m.path) (x ∷ later) ≡ false → text_eq x.path m.path ≡ false
      first_false h = ground (arith, h)

  undo_error-changed :
      (fs : FileSystem) (turn : TurnJournal) (k l : List FileMutation) (m : FileMutation)
      → turn.mutations ≡ k ++ m ∷ l
      → any (λ x. text_eq x.path m.path) l ≡ false
      → file_hash sha256 (fs m.path) ≢ m.post_hash
      → undo_error sha256 fs turn ≢ none
  unfolding undo_error
  undo_error-changed fs turn k l m parts off other =
      let q : FileMutation → Bool = λ x. text_eq x.path m.path in
      let e : reverse turn.mutations ≡ reverse l ++ m ∷ reverse k =
        ap reverse parts
        ∙ reverse-append k (m ∷ l)
        ∙ ap (λ r. r ++ reverse k) (reverse-cons m l)
        ∙ append_assoc (reverse l) (m ∷ []) (reverse k) in
      elim (Bool-cases turn.shell_may_bypass) [
        | inl bypass ↦ rw bypass (ground arith)
        | inr safe ↦ rw safe (
            subst (λ r. check_undo sha256 fs [] r ≢ none) (sym e)
              (check_undo-changed fs [] (reverse l) m (reverse k) (any-reverse q l ∙ off) other))
      ]

  refused_turn :
      (j : SnapshotJournal) (fault again : Option ℕ) (fs : FileSystem) (turn : TurnJournal)
      (o : Option Error)
      → o ≢ none
      → (e : Error) × (undo_turn sha256 j fault again fs turn o ≡ (j, fs, some e))
  unfolding undo_turn
  refused_turn j fault again fs turn none h = absurd (h refl)
  refused_turn j fault again fs turn (some e) h = (e, refl)

  -- Where the path of any mutation of the newest turn, that no later mutation of the turn is on, has
  -- another hash than behind that mutation, `undo` raises an error, and the journal and the files are
  -- unchanged.
  pub undo_changed :
      (j : SnapshotJournal) (fault again : Option ℕ) (fs : FileSystem) (turn : TurnJournal)
      (k l : List FileMutation) (m : FileMutation)
      → last? j.turns ≡ some turn
      → turn.mutations ≡ k ++ m ∷ l
      → any (λ x. text_eq x.path m.path) l ≡ false
      → file_hash sha256 (fs m.path) ≢ m.post_hash
      → (e : Error) × (undo sha256 j fault again fs ≡ (j, fs, some e))
  undo_changed j fault again fs turn k l m last parts off other =
      let r =
        refused_turn j fault again fs turn (undo_error sha256 fs turn)
          (undo_error-changed fs turn k l m parts off other) in
      (r.0, undo_at sha256 j fault again fs turn last ∙ r.1)
