-- ===== src/Diff/Parse.antt =====
-- `parse_unified_diff` (tools/diff_tools.py).
use noah_code.Prelude.{
  ◌>>=◌, ℕ, ◌+◌, ◌*◌, ◌-◌, true, false, ◌&&◌, ◌||◌, Option, none, some, List, [], ◌∷◌, ◌==◌,
  if◌then◌else◌,
}
use mathlib.Core.List.{reverse}
use noah_code.Python.Text.{
  Text, codes, texts, starts_with, ends_with, is_digit, strip, split_on, behind,
}

abbrev pub no_eol : Text
no_eol = codes "\\ No newline at end of file"

abbrev pub metadata_prefixes : List Text
metadata_prefixes = texts (
    "index " ∷ "old mode " ∷ "new mode " ∷ "new file mode " ∷ "deleted file mode "
    ∷ "similarity index " ∷ "dissimilarity index " ∷ "rename from " ∷ "rename to " ∷ "copy from "
    ∷ "copy to " ∷ "Binary files " ∷ "GIT binary patch" ∷ [])

unfoldable pub skip_ats : Text → Text
skip_ats [] = []
skip_ats (c ∷ s) = elim (c == b'@') [ true ↦ skip_ats s | false ↦ c ∷ s ]

-- The number that the digits continue, and what is behind it.
unfoldable pub digits_from : ℕ → Text → ℕ × Text
digits_from n [] = (n, [])
digits_from n (c ∷ s) = elim (is_digit c) [
  | true ↦ digits_from (10 * n + (c - b'0')) s
  | false ↦ (n, c ∷ s)
]

-- `(\d+)`
unfoldable pub number : Text → Option (ℕ × Text)
unfolding digits_from
number [] = none
number (c ∷ s) = if is_digit c then some (digits_from 0 (c ∷ s)) else none

-- `(\d+)(?:,(\d+))?`
unfoldable pub line_range : Text → Option (ℕ × Text)
unfolding number behind
line_range s = do
  (n, rest) ← number s
  elim (behind (codes ",") rest) [
    | none ↦ some (n, rest)
    | some rest' ↦ do (_, rest'') ← number rest'; some (n, rest'')
  ]

-- `_HUNK_HEADER`, for the first number
unfoldable pub hunk_header : Text → Option ℕ
unfolding behind skip_ats line_range
hunk_header line = do
  s ← behind (codes "@@") line
  s ← behind (codes " -") (skip_ats s)
  (old_start, s) ← line_range s
  s ← behind (codes " +") s
  (_, s) ← line_range s
  _ ← behind (codes " @@") s
  some old_start

abbrev first_part : ℕ → Text → Text
first_part c s = elim (split_on c s) [ [] ↦ [] | ◌∷◌ t l ↦ t ]

abbrev unquoted : Text → Text
unquoted [] = []
unquoted (c ∷ s) =
    if (c == b'"') && ends_with (c ∷ s) (codes "\"")
    then (elim (reverse s) [ [] ↦ [] | ◌∷◌ d t ↦ reverse t ])
    else c ∷ s

-- `parts[1]` of a path that begins with `a/` or `b/`
abbrev without_side : Text → Text
without_side (c ∷ d ∷ s) = if (d == b'/') && ((c == b'a') || (c == b'b')) then s else c ∷ d ∷ s
without_side s = s

unfoldable pub strip_prefix : Text → Text
unfolding strip split_on ends_with
strip_prefix raw = without_side (unquoted (strip (first_part b'\t' raw)))

unfoldable pub without_cr : Text → Text
without_cr [] = []
without_cr (c ∷ s) =
    let rest : Text = without_cr s in
    if (c == b'\r') && starts_with s (codes "\n") then rest else c ∷ rest

abbrev pub drop_blank : List Text → List Text
drop_blank [] = []
drop_blank ([] ∷ l) = drop_blank l
drop_blank ((c ∷ t) ∷ l) = (c ∷ t) ∷ l

unfoldable pub diff_lines : Text → List Text
unfolding without_cr split_on
diff_lines diff_text = reverse (drop_blank (reverse (split_on b'\n' (without_cr diff_text))))
