-- ===== src/Journal/Checks.antt =====
-- The checks of `validate_undo` and of `redo` on turns that were recorded around each edit.
use noah_code.Prelude.{
  ℕ, true, not, Option, none, some, List, [], ◌∷◌, ◌++◌, ◌≡◌, refl, ap, sym, ◌∙◌, arith,
  if◌then◌else◌, Bool-cases, inl, inr,
}
use mathlib.Core.List.{reverse, reverse-cons, append_assoc}
use noah_code.Python.Text.{Text, text_eq}
use noah_code.Python.Text.Laws.{text_eq_iff, text_eq_refl}
use noah_code.Files.{Bytes, File, FileSystem, put_file_self}
use noah_code.Journal.{
  FileMutation, preimage, with_postimage, check_undo, check_redo, check_pre, check_post, option_eq,
  first_error, file_hash, simulated_hash, expected_pre, Error, changed,
}
use noah_code.Journal.Recorded.{Edit, edit, edited, IsSmall, AllSmall, mutation_of, mutations_of}

option_eq_refl : (o : Option Text) → option_eq o o ≡ true
option_eq_refl none = refl
option_eq_refl (some t) = text_eq_refl t

equal_passes :
    {x y : Option Text} (e : Error) (o : Option Error)
    → x ≡ y
    → (if not (option_eq x y) then some e else o) ≡ o
equal_passes {x} {y} e o h = rw h (rw (option_eq_refl y) refl)

module _ (sha256 : Bytes → Text) where
  check_undo_pass :
      (now : FileSystem) (simulated : List (Text × Option Text)) (m : FileMutation)
      (rest : List FileMutation)
      → simulated_hash sha256 simulated now m.path ≡ m.post_hash
      → check_pre sha256 m ≡ none
      → check_post sha256 m ≡ none
      → check_undo sha256 now simulated (m ∷ rest)
        ≡ check_undo sha256 now ((m.path, expected_pre m) ∷ simulated) rest
  unfolding check_undo
  check_undo_pass now simulated m rest h pre post =
      ap (λ x. first_error x (check_undo sha256 now ((m.path, expected_pre m) ∷ simulated) rest))
        (equal_passes (changed m.path) (first_error (check_pre sha256 m) (check_post sha256 m)) h
          ∙ ap (λ x. first_error x (check_post sha256 m)) pre
          ∙ post)

  check_redo_pass :
      (now : FileSystem) (simulated : List (Text × Option Text)) (m : FileMutation)
      (rest : List FileMutation)
      → simulated_hash sha256 simulated now m.path ≡ expected_pre m
      → check_post sha256 m ≡ none
      → check_redo sha256 now simulated (m ∷ rest)
        ≡ check_redo sha256 now ((m.path, m.post_hash) ∷ simulated) rest
  unfolding check_redo
  check_redo_pass now simulated m rest h post =
      ap (λ x. first_error x (check_redo sha256 now ((m.path, m.post_hash) ∷ simulated) rest))
        (equal_passes (changed m.path) (check_post sha256 m) h ∙ post)

module _ (sha256 : Bytes → Text) (limit turn_id : ℕ) where
  -- The simulated hashes are those of the files.
  abbrev pub Agrees : FileSystem → List (Text × Option Text) → FileSystem → Type 0
  Agrees now simulated fs =
      (q : Text) → simulated_hash sha256 simulated now q ≡ file_hash sha256 (fs q)

  -- What the loop of `validate_undo` holds behind the edits.
  pub undo_hashes : FileSystem → List Edit → List (Text × Option Text) → List (Text × Option Text)
  undo_hashes fs [] simulated = simulated
  undo_hashes fs (e ∷ l) simulated =
      (e.path, file_hash sha256 (fs e.path)) ∷ undo_hashes (edit fs e) l simulated

  push-Agrees-undo :
      (now : FileSystem) (simulated : List (Text × Option Text)) (fs : FileSystem) (e : Edit)
      → Agrees now simulated (edit fs e)
      → Agrees now ((e.path, file_hash sha256 (fs e.path)) ∷ simulated) fs
  push-Agrees-undo now simulated fs e h q = elim (Bool-cases (text_eq e.path q)) [
    | inl same ↦ rw same (ap (λ p. file_hash sha256 (fs p)) ((text_eq_iff e.path q).0 same))
    | inr other ↦ rw other (h q ∙ ground (arith, text_eq_iff e.path q, text_eq_iff q e.path))
  ]

  push-Agrees-redo :
      (now : FileSystem) (simulated : List (Text × Option Text)) (fs : FileSystem) (e : Edit)
      → Agrees now simulated fs
      → Agrees now ((e.path, file_hash sha256 e.file) ∷ simulated) (edit fs e)
  push-Agrees-redo now simulated fs e h q = elim (Bool-cases (text_eq q e.path)) [
    | inl same ↦ rw same (rw ((text_eq_iff e.path q).1 (sym ((text_eq_iff q e.path).0 same))) refl)
    | inr other ↦ rw other (ground (arith, h q, text_eq_iff e.path q, text_eq_iff q e.path))
  ]

  undo_hashes-Agrees :
      (now : FileSystem) (fs : FileSystem) (l : List Edit) (simulated : List (Text × Option Text))
      → Agrees now simulated (edited fs l)
      → Agrees now (undo_hashes fs l simulated) fs
  unfolding undo_hashes edited
  undo_hashes-Agrees now fs [] simulated h = h
  undo_hashes-Agrees now fs (e ∷ l) simulated h =
      push-Agrees-undo now (undo_hashes (edit fs e) l simulated) fs e
        (undo_hashes-Agrees now (edit fs e) l simulated h)

  expected_pre-mutation_of :
      (fs : FileSystem) (e : Edit)
      → expected_pre (mutation_of sha256 limit turn_id fs e) ≡ file_hash sha256 (fs e.path)
  unfolding preimage with_postimage
  expected_pre-mutation_of fs e = ground arith

  check_pre-preimage :
      (id : ℕ) (path : Text) (before after : Option File)
      → IsSmall limit before
      → check_pre sha256
          (with_postimage sha256 limit after (preimage sha256 limit id turn_id path before))
        ≡ none
  unfolding preimage with_postimage
  check_pre-preimage id path none after h = refl
  check_pre-preimage id path (some f) after h = ground (arith, text_eq_refl (sha256 f.content))

  check_post-preimage :
      (id : ℕ) (path : Text) (before after : Option File)
      → IsSmall limit after
      → check_post sha256
          (with_postimage sha256 limit after (preimage sha256 limit id turn_id path before))
        ≡ none
  unfolding preimage with_postimage
  check_post-preimage id path before none h = refl
  check_post-preimage id path before (some f) h = ground (arith, text_eq_refl (sha256 f.content))

  -- One round of the loop of `validate_undo`.
  check_undo_step :
      (now : FileSystem) (simulated : List (Text × Option Text)) (fs : FileSystem) (e : Edit)
      (rest : List FileMutation)
      → Agrees now simulated (edit fs e)
      → IsSmall limit (fs e.path)
      → IsSmall limit e.file
      → check_undo sha256 now simulated (mutation_of sha256 limit turn_id fs e ∷ rest)
        ≡ check_undo sha256 now ((e.path, file_hash sha256 (fs e.path)) ∷ simulated) rest
  unfolding preimage with_postimage
  check_undo_step now simulated fs e rest h small small' =
      check_undo_pass sha256 now simulated (mutation_of sha256 limit turn_id fs e) rest
        (h e.path ∙ ap (file_hash sha256) (put_file_self fs e.path e.file))
        (check_pre-preimage e.id e.path (fs e.path) e.file small)
        (check_post-preimage e.id e.path (fs e.path) e.file small')
      ∙ ap (λ x. check_undo sha256 now ((e.path, x) ∷ simulated) rest)
          (unfold preimage with_postimage in expected_pre-mutation_of fs e)

  check_redo_step :
      (now : FileSystem) (simulated : List (Text × Option Text)) (fs : FileSystem) (e : Edit)
      (rest : List FileMutation)
      → Agrees now simulated fs
      → IsSmall limit e.file
      → check_redo sha256 now simulated (mutation_of sha256 limit turn_id fs e ∷ rest)
        ≡ check_redo sha256 now ((e.path, file_hash sha256 e.file) ∷ simulated) rest
  unfolding preimage with_postimage
  check_redo_step now simulated fs e rest h small =
      check_redo_pass sha256 now simulated (mutation_of sha256 limit turn_id fs e) rest
        (h e.path ∙ sym (unfold preimage with_postimage in expected_pre-mutation_of fs e))
        (check_post-preimage e.id e.path (fs e.path) e.file small)

  -- The loop of `validate_undo`, newest edit first.
  pub check_undo-recorded :
      (now : FileSystem) (fs : FileSystem) (l : List Edit) (simulated : List (Text × Option Text))
      (rest : List FileMutation)
      → Agrees now simulated (edited fs l)
      → AllSmall limit fs l
      → check_undo sha256 now simulated (reverse (mutations_of sha256 limit turn_id fs l) ++ rest)
        ≡ check_undo sha256 now (undo_hashes fs l simulated) rest
  unfolding undo_hashes edited mutations_of
  check_undo-recorded now fs [] simulated rest h small = refl
  check_undo-recorded now fs (e ∷ l) simulated rest h small =
      let m : FileMutation = mutation_of sha256 limit turn_id fs e in
      let ms : List FileMutation = mutations_of sha256 limit turn_id (edit fs e) l in
      ap (λ k. check_undo sha256 now simulated (k ++ rest)) (reverse-cons m ms)
      ∙ ap (check_undo sha256 now simulated) (append_assoc (reverse ms) (m ∷ []) rest)
      ∙ check_undo-recorded now (edit fs e) l simulated (m ∷ rest) h small.2
      ∙ check_undo_step now (undo_hashes (edit fs e) l simulated) fs e rest
          (undo_hashes-Agrees now (edit fs e) l simulated h) small.0 small.1

  -- The loop of `redo`, from the files before the edits.
  pub check_redo-recorded :
      (now : FileSystem) (fs : FileSystem) (l : List Edit) (simulated : List (Text × Option Text))
      → Agrees now simulated fs
      → AllSmall limit fs l
      → check_redo sha256 now simulated (mutations_of sha256 limit turn_id fs l) ≡ none
  unfolding mutations_of
  check_redo-recorded now fs [] simulated h small = unfold check_redo in refl
  check_redo-recorded now fs (e ∷ l) simulated h small =
      check_redo_step now simulated fs e (mutations_of sha256 limit turn_id (edit fs e) l) h small.1
      ∙ check_redo-recorded now (edit fs e) l ((e.path, file_hash sha256 e.file) ∷ simulated)
          (push-Agrees-redo now simulated fs e h) small.2
