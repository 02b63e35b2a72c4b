-- ===== src/Diff.antt =====
-- Unified diffs (tools/diff_tools.py): what they are parsed to.
pub mod Parse
pub mod Sections
pub mod Locate
pub mod Nearest
pub mod Apply
pub mod Revert
pub mod WellFormed
mod Tests
use noah_code.Prelude.{
  ℕ, Bool, true, false, ◌||◌, Option, none, some, List, [], ◌∷◌, ◌==◌, if◌then◌else◌,
}
use noah_code.Python.Text.{Text}

pub record Hunk : Type 0 where
  pub old_start : ℕ
  pub entries : List Text

-- The bodies of the entries that begin with a space or with the character.
abbrev pub bodies : ℕ → List Text → List Text
bodies mark [] = []
bodies mark ([] ∷ l) = bodies mark l
bodies mark ((c ∷ t) ∷ l) =
    let rest : List Text = bodies mark l in if (c == b' ') || (c == mark) then t ∷ rest else rest

unfoldable pub before_lines : Hunk → List Text
before_lines h = bodies b'-' h.entries

unfoldable pub after_lines : Hunk → List Text
after_lines h = bodies b'+' h.entries

pub record FileDiff : Type 0 where
  pub path : Text
  pub is_create : Bool
  pub is_delete : Bool
  pub hunks : List Hunk
  pub old_no_eol : Bool
  pub new_no_eol : Bool

pub data Operation : Type 0 where
  add update delete : Operation

pub record DiffChange : Type 0 where
  pub path : Text
  pub old : Option Text
  pub new : Option Text
  pub operation : Operation

-- What a raised ValueError says of.
pub data DiffError : Type 0 where
  no_file_header no_new_header no_path malformed_hunk no_hunks no_files : DiffError
  already_exists nothing_to_create missing_file no_match : DiffError
