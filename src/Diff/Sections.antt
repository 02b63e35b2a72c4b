-- ===== src/Diff/Sections.antt =====
-- The loops of `parse_unified_diff` (tools/diff_tools.py), as one pass over the lines.
use noah_code.Prelude.{
  ◌>>=◌, ℕ, Bool, true, false, ◌&&◌, ◌||◌, not, Option, none, some, List, [], ◌∷◌, ◌++◌, ◌==◌,
  if◌then◌else◌, any, null, last?,
}
use noah_code.Python.Text.{Text, text_eq, codes, starts_with, strip}
use noah_code.Diff.{
  Hunk, FileDiff, DiffError, no_file_header, no_new_header, no_path, malformed_hunk, no_hunks,
  no_files,
}
use noah_code.Diff.Parse.{no_eol, metadata_prefixes, hunk_header, strip_prefix, diff_lines}

pub data Parsed {ℓ} (A : Type ℓ) : Type ℓ where
  failed : DiffError → Parsed A
  parsed : A → Parsed A

-- The sections that are over, the one that is read, and whether the next line is its `+++` line.
pub record Reading : Type 0 where
  pub files : List FileDiff
  pub current : Option FileDiff
  pub is_header_next : Bool

abbrev pub has_new_header : List Text → Bool
has_new_header [] = false
has_new_header (next ∷ l) = starts_with next (codes "+++ ")

abbrev pub next_line : List Text → Text
next_line [] = []
next_line (next ∷ l) = next

-- `line[4:]`
abbrev pub from_fourth : Text → Text
from_fourth (a ∷ b ∷ c ∷ d ∷ s) = s
from_fourth s = []

abbrev pub dev_null : Text
dev_null = codes "/dev/null"

abbrev pub opened : Text → Text → Parsed FileDiff
opened old_path new_path =
    let is_delete : Bool = text_eq new_path dev_null in
    let target : Text = if not is_delete then new_path else old_path in
    if null target || text_eq target dev_null
    then failed no_path
    else parsed (record {
      path = target;
      is_create = text_eq old_path dev_null;
      is_delete = is_delete;
      hunks = [];
      old_no_eol = false;
      new_no_eol = false;
    })

abbrev pub is_metadata : Text → Bool
is_metadata line =
    starts_with line (codes "diff --git ") || any (starts_with line) metadata_prefixes

-- A line that stands in no section.
unfoldable pub between_files : List FileDiff → Text → List Text → Parsed Reading
unfolding strip starts_with text_eq strip_prefix
between_files files line rest =
    if null (strip line) || is_metadata line
    then parsed (record { files = files; current = none; is_header_next = false })
    else if not (starts_with line (codes "--- "))
    then failed no_file_header
    else if not (has_new_header rest)
    then failed no_new_header
    else elim (opened (strip_prefix (from_fourth line))
        (strip_prefix (from_fourth (next_line rest)))) [
          | failed e ↦ failed e
          | parsed f ↦ parsed (record { files = files; current = some f; is_header_next = true })
        ]

-- A section is over.
unfoldable pub close : List FileDiff → FileDiff → Parsed (List FileDiff)
close files f =
    if null f.hunks && not (f.is_create || f.is_delete)
    then failed no_hunks
    else parsed (files ++ f ∷ [])

abbrev pub add_entry : Text → List Hunk → List Hunk
add_entry entry [] = []
add_entry entry (h ∷ []) = record h { entries = h.entries ++ entry ∷ [] } ∷ []
add_entry entry (h ∷ k ∷ l) = h ∷ add_entry entry (k ∷ l)

-- The character that the last entry of the last hunk begins with.
abbrev last_mark : List Hunk → Option ℕ
last_mark l = do h ← last? l; entry ← last? h.entries; elim entry [ [] ↦ none | ◌∷◌ c t ↦ some c ]

abbrev is_mark : ℕ → Option ℕ → Bool
is_mark sign none = false
is_mark sign (some c) = (c == b' ') || (c == sign)

abbrev pub without_eol : FileDiff → FileDiff
without_eol f =
    let mark : Option ℕ = last_mark f.hunks in
    record f {
      old_no_eol = f.old_no_eol || is_mark b'-' mark;
      new_no_eol = f.new_no_eol || is_mark b'+' mark;
    }

abbrev pub is_body : Text → Bool
is_body [] = false
is_body (c ∷ t) = (c == b' ') || (c == b'+') || (c == b'-')

-- `break`: the outer loop reads the line.
unfoldable pub leave : List FileDiff → FileDiff → Text → List Text → Parsed Reading
unfolding close between_files
leave files f line rest = elim (close files f) [
  | failed e ↦ failed e
  | parsed files' ↦ between_files files' line rest
]

abbrev pub stay : List FileDiff → FileDiff → Parsed Reading
stay files f = parsed (record { files = files; current = some f; is_header_next = false })

unfoldable pub body_line : List FileDiff → FileDiff → Text → Text → List Text → Parsed Reading
unfolding leave starts_with
body_line files f entry line rest =
    if starts_with entry (codes "--- ") && has_new_header rest
    then leave files f line rest
    else if not (null f.hunks) && is_body entry
    then stay files (record f { hunks = add_entry entry f.hunks })
    else leave files f line rest

-- A line of a section.
unfoldable pub in_file : List FileDiff → FileDiff → Text → List Text → Parsed Reading
unfolding body_line starts_with hunk_header
in_file files f line rest = elim (hunk_header line) [
  | some n ↦
      stay files (record f { hunks = f.hunks ++ record { old_start = n; entries = [] } ∷ [] })
  | none ↦
      if starts_with line (codes "@@")
      then failed malformed_hunk
      else if starts_with line no_eol
      then stay files (without_eol f)
      else body_line files f (if null line then codes " " else line) line rest
]

unfoldable pub read_line : Reading → Text → List Text → Parsed Reading
unfolding between_files in_file
read_line s line rest =
    if s.is_header_next then parsed (record s { is_header_next = false }) else elim s.current [
      | none ↦ between_files s.files line rest
      | some f ↦ in_file s.files f line rest
    ]

unfoldable pub finished : Reading → Parsed (List FileDiff)
unfolding close
finished s = elim s.current [ none ↦ parsed s.files | some f ↦ close s.files f ]

unfoldable pub read_lines : Reading → List Text → Parsed (List FileDiff)
unfolding read_line finished
read_lines s [] = finished s
read_lines s (line ∷ rest) = elim (read_line s line rest) [
  | failed e ↦ failed e
  | parsed s' ↦ read_lines s' rest
]

abbrev pub some_files : Parsed (List FileDiff) → Parsed (List FileDiff)
some_files (failed e) = failed e
some_files (parsed []) = failed no_files
some_files (parsed (f ∷ l)) = parsed (f ∷ l)

unfoldable pub parse_unified_diff : Text → Parsed (List FileDiff)
unfolding read_lines diff_lines
parse_unified_diff diff_text = some_files (
    read_lines (record { files = []; current = none; is_header_next = false })
      (diff_lines diff_text))
