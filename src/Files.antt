-- ===== src/Files.antt =====
-- The file system as the program's modules see it: regular files by their path, each with its
-- content and its mode.
use noah_code.Prelude.{ℕ, Option, List, if◌then◌else◌, ◌≡◌, refl, ap, Bool-cases, inl, inr, sym}
use noah_code.Python.Text.{Text, text_eq}
use noah_code.Python.Text.Laws.{text_eq_iff}
use mathlib.Core.Path.{fun_ext}

abbrev pub Bytes : Type 0
Bytes = List ℕ

pub record File : Type 0 where
  pub content : Bytes
  pub mode : ℕ

abbrev pub FileSystem : Type 0
FileSystem = Text → Option File

-- The path holds the file, or nothing.
abbrev pub put_file : FileSystem → Text → Option File → FileSystem
put_file fs path o q = if text_eq q path then o else fs q

pub put_file_self : (fs : FileSystem) (p : Text) (o : Option File) → put_file fs p o p ≡ o
put_file_self fs p o = rw ((text_eq_iff p p).1 refl) refl

put_file_twice_at :
    (fs : FileSystem) (p : Text) (o : Option File) (q : Text)
    → put_file (put_file fs p o) p (fs p) q ≡ fs q
put_file_twice_at fs p o q = elim (Bool-cases (text_eq q p)) [
  | inl same ↦ rw same (ap fs (sym ((text_eq_iff q p).0 same)))
  | inr other ↦ rw other refl
]

-- Writing back what a path held undoes a write.
pub put_file-undo :
    (fs : FileSystem) (p : Text) (o : Option File) → put_file (put_file fs p o) p (fs p) ≡ fs
put_file-undo fs p o = fun_ext (put_file_twice_at fs p o)
