-- ===== src/Diff/Apply.antt =====
-- `materialize_change` (tools/diff_tools.py).
use noah_code.Prelude.{
  drop, ◌>>=◌, ℕ, ◌+◌, ◌-◌, Bool, true, false, ◌&&◌, not, Option, none, some, List, [], ◌∷◌, ◌++◌,
  if◌then◌else◌, ltb, leb, null, take, length, collect, ◌==◌,
}
use noah_code.Python.Text.{Text, codes, split_on, join}
use noah_code.Diff.{
  Hunk, FileDiff, DiffChange, before_lines, after_lines, add, update, delete, already_exists,
  nothing_to_create, missing_file, no_match,
}
use noah_code.Diff.Sections.{Parsed, failed, parsed}
use noah_code.Diff.Locate.{locate}

abbrev ends_line : Text → Bool
ends_line [] = false
ends_line (c ∷ []) = c == b'\n'
ends_line (c ∷ d ∷ s) = ends_line (d ∷ s)

-- `text[:-1]`
abbrev but_last : Text → Text
but_last [] = []
but_last (c ∷ []) = []
but_last (c ∷ d ∷ s) = c ∷ but_last (d ∷ s)

unfoldable pub split_body : Text → List Text × Bool
unfolding split_on
split_body [] = ([], false)
split_body (c ∷ s) =
    if ends_line (c ∷ s)
    then (split_on b'\n' (but_last (c ∷ s)), true)
    else (split_on b'\n' (c ∷ s), false)

-- `body[start : start + n] = lines`
unfoldable pub splice : List Text → ℕ → ℕ → List Text → List Text
unfolding drop
splice body start n lines = take start body ++ (lines ++ drop (start + n) body)

-- The new body, and the end of what was put in.
unfoldable pub apply_hunk : List Text → Hunk → Option (List Text × ℕ)
unfolding locate before_lines after_lines splice
apply_hunk body h = do
  start ← locate body (before_lines h) (h.old_start - 1)
  some (splice body start (length (before_lines h)) (after_lines h), start + length (after_lines h))

unfoldable pub apply_hunks : List Text → List Hunk → Option (List Text × List ℕ)
unfolding apply_hunk
apply_hunks body [] = some (body, [])
apply_hunks body (h ∷ l) = do
  (body', end) ← apply_hunk body h
  (body'', ends) ← apply_hunks body' l
  some (body'', end ∷ ends)

-- `sorted(…, reverse=True)` keeps the order of equal items.
abbrev insert_hunk : Hunk → List Hunk → List Hunk
insert_hunk h [] = h ∷ []
insert_hunk h (k ∷ l) =
    let rest : List Hunk = insert_hunk h l in
    if ltb h.old_start k.old_start then k ∷ rest else h ∷ k ∷ l

unfoldable pub last_first : List Hunk → List Hunk
last_first [] = []
last_first (h ∷ l) = insert_hunk h (last_first l)

-- The loop over what was applied.
abbrev ends_with_newline : FileDiff → ℕ → Bool → List ℕ → Bool
ends_with_newline f size flag [] = flag
ends_with_newline f size flag (end ∷ l) =
    ends_with_newline f size
      (if leb size end
        then (if f.new_no_eol then false else if f.old_no_eol then true else flag)
        else flag)
      l

unfoldable pub created : FileDiff → List Text → Parsed DiffChange
unfolding join
created f [] = failed nothing_to_create
created f (t ∷ l) =
    let text : Text = join (codes "\n") (t ∷ l) in
    parsed (record {
      path = f.path;
      old = none;
      new = some (if not f.new_no_eol then text ++ codes "\n" else text);
      operation = add;
    })

unfoldable pub updated : FileDiff → Text → Parsed DiffChange
unfolding join split_body apply_hunks last_first
updated f current =
    let (body, had_trailing_newline) = split_body current in
    elim (apply_hunks body (last_first f.hunks)) [
      | none ↦ failed no_match
      | some (body', ends) ↦
          let patched : Text = join (codes "\n") body' in
          parsed (record {
            path = f.path;
            old = some current;
            new = some (
                if not (null patched)
                  && ends_with_newline f (length body') had_trailing_newline ends
                then patched ++ codes "\n"
                else patched);
            operation = update;
          })
    ]

unfoldable pub changed_file : FileDiff → Option Text → Parsed DiffChange
unfolding updated
changed_file f none = failed missing_file
changed_file f (some current) =
    if f.is_delete
    then parsed (record { path = f.path; old = some current; new = none; operation = delete })
    else updated f current

unfoldable pub materialize_change : FileDiff → Option Text → Parsed DiffChange
unfolding created changed_file after_lines
materialize_change f current =
    if f.is_create
    then (elim current [
      | some text ↦ failed already_exists
      | none ↦ created f (collect after_lines f.hunks)
    ])
    else changed_file f current
