-- ===== src/Diff/Tests.antt =====
-- A diff that is parsed and applied, and the theorems on it.
use noah_code.Prelude.{
  drop, ℕ, false, some, List, [], ◌∷◌, ◌++◌, ◌≡◌, refl, ◌≤◌, length, ◌+◌, null, All,
}
use noah_code.Python.Text.{Text, codes, texts, join}
use noah_code.Diff.{Hunk, FileDiff, update, before_lines, after_lines, no_file_header}
use noah_code.Diff.Sections.{failed, parsed, parse_unified_diff}
use noah_code.Diff.Locate.{locate}
use noah_code.Diff.Nearest.{IsAt, distance, center_of, locate-nearest}
use noah_code.Diff.Apply.{apply_hunk, materialize_change}
use noah_code.Diff.Revert.{turned_back, apply_hunk-turned_back}
use noah_code.Diff.WellFormed.{IsFileDiff, parse_unified_diff-IsFileDiff}

abbrev hunk : Hunk
hunk = record { old_start = 2; entries = texts (" b" ∷ "-c" ∷ "+d" ∷ "+e" ∷ []) }

abbrev diff : Text
diff = join (codes "\n") (
    texts (
      "diff --git a/x b/x" ∷ "--- a/x" ∷ "+++ b/x" ∷ "@@ -2,2 +2,3 @@" ∷ " b" ∷ "-c" ∷ "+d" ∷ "+e"
      ∷ []))

abbrev file_diff : FileDiff
file_diff = record {
  path = codes "x";
  is_create = false;
  is_delete = false;
  hunks = hunk ∷ [];
  old_no_eol = false;
  new_no_eol = false;
}

is_parsed : parse_unified_diff diff ≡ parsed (file_diff ∷ [])
unfolding parse_unified_diff join
is_parsed = refl

is_no_diff : parse_unified_diff (codes "hello") ≡ failed no_file_header
unfolding parse_unified_diff
is_no_diff = refl

is_applied :
    materialize_change file_diff (some (codes "a\nb\nc\n"))
    ≡ parsed (record {
      path = codes "x";
      old = some (codes "a\nb\nc\n");
      new = some (codes "a\nb\nd\ne\n");
      operation = update;
    })
unfolding materialize_change
is_applied = refl

abbrev file_lines : List Text
file_lines = texts ("b" ∷ "a" ∷ "b" ∷ "a" ∷ "c" ∷ [])

-- The block stands twice, and the farther place is given.
locate-nearest_example :
    (p : ℕ) × (locate file_lines (texts ("a" ∷ [])) 4 ≡ some p)
    × IsAt file_lines (texts ("a" ∷ [])) p
    × (distance (center_of file_lines (texts ("a" ∷ [])) 4) p
        ≤ distance (center_of file_lines (texts ("a" ∷ [])) 4) 1)
unfolding drop
locate-nearest_example = locate-nearest file_lines (codes "a") [] 4 1 refl

apply_hunk-turned_back_example :
    (apply_hunk (texts ("a" ∷ []) ++ (before_lines hunk ++ texts ("z" ∷ []))) hunk
      ≡ some (
        texts ("a" ∷ []) ++ (after_lines hunk ++ texts ("z" ∷ [])),
        1 + length (after_lines hunk),
      ))
    × (apply_hunk (texts ("a" ∷ []) ++ (after_lines hunk ++ texts ("z" ∷ []))) (turned_back hunk)
        ≡ some (
          texts ("a" ∷ []) ++ (before_lines hunk ++ texts ("z" ∷ [])),
          1 + length (before_lines hunk),
        ))
apply_hunk-turned_back_example =
    apply_hunk-turned_back hunk (texts ("a" ∷ [])) (texts ("z" ∷ [])) refl

parse_unified_diff-IsFileDiff_example :
    (null (file_diff ∷ []) ≡ false) × All IsFileDiff (file_diff ∷ [])
parse_unified_diff-IsFileDiff_example =
    parse_unified_diff-IsFileDiff diff (file_diff ∷ []) is_parsed
