-- ===== src/Journal/Recorded.antt =====
-- Turns whose mutations were recorded around each edit, and the loops of `undo` and `redo` on them.
use noah_code.Prelude.{
  ℕ, ◌≤◌, false, Option, none, some, List, [], ◌∷◌, ◌++◌, ◌≡◌, refl, ap, ◌∙◌, arith, length,
}
use mathlib.Core.List.{reverse, reverse-cons}
use noah_code.Python.Text.{Text}
use noah_code.Files.{Bytes, File, FileSystem, put_file, put_file-undo}
use noah_code.Journal.{FileMutation, preimage, with_postimage, pre_file, post_file, write_all}

-- An edit of a turn: the path holds the file from then on, or nothing.
pub record Edit : Type 0 where
  pub id : ℕ
  pub path : Text
  pub file : Option File

abbrev pub edit : FileSystem → Edit → FileSystem
edit fs e = put_file fs e.path e.file

unfoldable pub edited : FileSystem → List Edit → FileSystem
edited fs [] = fs
edited fs (e ∷ l) = edited (edit fs e) l

-- A file that the journal can store.
abbrev pub IsSmall : ℕ → Option File → Type 0
IsSmall limit none = Unit {0}
IsSmall limit (some f) = length f.content ≤ limit

abbrev pub AllSmall : ℕ → FileSystem → List Edit → Type 0
AllSmall limit fs [] = Unit {0}
AllSmall limit fs (e ∷ l) =
    IsSmall limit (fs e.path) × IsSmall limit e.file × AllSmall limit (edit fs e) l

-- The loops of writes, without the record of what was applied.
unfoldable pub fold_writes :
    (FileMutation → Option File) → List FileMutation → FileSystem → FileSystem
fold_writes file [] fs = fs
fold_writes file (m ∷ l) fs = fold_writes file l (put_file fs m.path (file m))

pub fold_writes-append :
    (file : FileMutation → Option File) (k l : List FileMutation) (fs : FileSystem)
    → fold_writes file (k ++ l) fs ≡ fold_writes file l (fold_writes file k fs)
unfolding fold_writes
fold_writes-append file [] l fs = refl
fold_writes-append file (m ∷ k) l fs = fold_writes-append file k l (put_file fs m.path (file m))

pub write_all-none :
    (file : FileMutation → Option File) (applied l : List FileMutation) (fs : FileSystem)
    → ((write_all file none applied l fs).1 ≡ fold_writes file l fs)
      × ((write_all file none applied l fs).2 ≡ false)
unfolding write_all fold_writes
write_all-none file applied [] fs = (refl, refl)
write_all-none file applied (m ∷ l) fs =
    write_all-none file (m ∷ applied) l (put_file fs m.path (file m))

fold_writes-singleton :
    (file : FileMutation → Option File) (m : FileMutation) (fs : FileSystem)
    → fold_writes file (m ∷ []) fs ≡ put_file fs m.path (file m)
unfolding fold_writes
fold_writes-singleton file m fs = refl

module _ (sha256 : Bytes → Text) (limit turn_id : ℕ) where
  -- What `record_preimage` before the edit and `record_postimage` behind it leave.
  abbrev pub mutation_of : FileSystem → Edit → FileMutation
  mutation_of fs e =
      with_postimage sha256 limit e.file (preimage sha256 limit e.id turn_id e.path (fs e.path))

  unfoldable pub mutations_of : FileSystem → List Edit → List FileMutation
  mutations_of fs [] = []
  mutations_of fs (e ∷ l) = mutation_of fs e ∷ mutations_of (edit fs e) l

  pub pre_file-mutation_of :
      (fs : FileSystem) (e : Edit)
      → IsSmall limit (fs e.path)
      → pre_file (mutation_of fs e) ≡ fs e.path
  unfolding preimage with_postimage
  pre_file-mutation_of fs e h = ground arith

  pub post_file-mutation_of :
      (fs : FileSystem) (e : Edit) → IsSmall limit e.file → post_file (mutation_of fs e) ≡ e.file
  unfolding preimage with_postimage
  post_file-mutation_of fs e h = ground arith

  -- The write that undoes the oldest edit.
  edit_undone :
      (fs : FileSystem) (e : Edit)
      → IsSmall limit (fs e.path)
      → fold_writes pre_file (mutation_of fs e ∷ []) (edit fs e) ≡ fs
  unfolding with_postimage preimage fold_writes
  edit_undone fs e h =
      ap (put_file (edit fs e) e.path)
        (unfold with_postimage preimage in pre_file-mutation_of fs e h)
      ∙ put_file-undo fs e.path e.file

  -- Undoing the recorded edits, newest first, gives the files from before them.
  pub fold_writes-undo :
      (fs : FileSystem) (l : List Edit)
      → AllSmall limit fs l
      → fold_writes pre_file (reverse (mutations_of fs l)) (edited fs l) ≡ fs
  unfolding edited mutations_of
  fold_writes-undo fs [] h = unfold fold_writes in refl
  fold_writes-undo fs (e ∷ l) h =
      ap (λ k. fold_writes pre_file k (edited (edit fs e) l))
        (reverse-cons (mutation_of fs e) (mutations_of (edit fs e) l))
      ∙ fold_writes-append pre_file (reverse (mutations_of (edit fs e) l)) (mutation_of fs e ∷ [])
          (edited (edit fs e) l)
      ∙ ap (fold_writes pre_file (mutation_of fs e ∷ [])) (fold_writes-undo (edit fs e) l h.2)
      ∙ edit_undone fs e h.0

  -- Doing them again gives the files from behind them.
  pub fold_writes-redo :
      (fs : FileSystem) (l : List Edit)
      → AllSmall limit fs l
      → fold_writes post_file (mutations_of fs l) fs ≡ edited fs l
  unfolding edited mutations_of fold_writes with_postimage preimage
  fold_writes-redo fs [] h = refl
  fold_writes-redo fs (e ∷ l) h =
      ap (λ o. fold_writes post_file (mutations_of (edit fs e) l) (put_file fs e.path o))
        (post_file-mutation_of fs e h.1)
      ∙ fold_writes-redo (edit fs e) l h.2
