-- ===== src/Edits.antt =====
-- The edits of a file's text in `WorkspaceTools` (tools/workspace_tools.py).
pub mod Splice
mod Tests
use noah_code.Prelude.{
  drop, ℕ, zero, suc, ◌+◌, ◌-◌, Bool, true, false, ◌&&◌, ◌||◌, not, Option, none, some, List, [],
  ◌∷◌, ◌++◌, ◌==◌, ltb, leb, if◌then◌else◌, null, take, length, collect, last?,
}
use noah_code.Python.Text.{Text, text_eq, codes, starts_with, ends_with, has}
use noah_code.Output.{split_lines}
use noah_code.Files.{Bytes}

-- What a raised ValueError says of.
pub data EditError : Type 0 where
  no_old_text binary not_found stale_lines stale_text : EditError
  many : ℕ → EditError

pub data Edited {ℓ} (A : Type ℓ) : Type ℓ where
  refused : EditError → Edited A
  edited : A → Edited A

-- `text.count(old)`, where so many characters belong to an occurrence that was counted.
unfoldable pub count_from : Text → ℕ → Text → ℕ
unfolding starts_with
count_from old skip [] = 0
count_from old (suc skip) (c ∷ s) = count_from old skip s
count_from old zero (c ∷ s) = elim (starts_with (c ∷ s) old) [
  | true ↦ suc (count_from old (length old - 1) s)
  | false ↦ count_from old zero s
]

unfoldable pub count : Text → Text → ℕ
unfolding count_from
count text old = count_from old 0 text

-- `text.replace(old, new, 1)`
unfoldable pub replace_first : Text → Text → Text → Text
unfolding starts_with drop
replace_first old new [] = []
replace_first old new (c ∷ s) =
    let rest : Text = replace_first old new s in
    if starts_with (c ∷ s) old then new ++ drop (length old) (c ∷ s) else c ∷ rest

unfoldable pub replace_text : Text → Text → Text → Edited Text
unfolding count replace_first
replace_text text old new =
    let n : ℕ = count text old in
    if n == 0
    then refused not_found
    else if ltb 1 n
    then refused (many n)
    else edited (replace_first old new text)

abbrev normalize_cr : Text → Text
normalize_cr [] = []
normalize_cr (c ∷ s) =
    let rest : Text = normalize_cr s in
    if c == b'\r'
    then (elim s [ [] ↦ b'\n' ∷ [] | ◌∷◌ d t ↦ if d == b'\n' then rest else b'\n' ∷ rest ])
    else c ∷ rest

-- `_normalize_newlines`
unfoldable pub normalize_newlines : Text → Text
normalize_newlines s = normalize_cr s

abbrev joined : List Text → Text
joined l = collect (λ t. t) l

-- The replacement, with the line end that it lacks before a line that follows.
abbrev with_line_end : List Text → Text → Bool → Text
unfolding ends_with
with_line_end removed new_text is_last =
    if not (null new_text) && not (ends_with new_text (codes "\n")) && not is_last
    then (elim (last? removed) [
      | none ↦ new_text ++ codes "\n"
      | some line ↦
          if ends_with line (codes "\r\n") then new_text ++ codes "\r\n" else new_text ++ codes "\n"
    ])
    else new_text

-- The lines from `start` to `end`, which are numbered from one.
unfoldable pub replace_lines : Text → ℕ → ℕ → Text → Text → Edited Text
unfolding split_lines text_eq normalize_newlines with_line_end drop
replace_lines text start end old new_text =
    let lines : List Text = split_lines text in
    let total : ℕ = length lines in
    let removed : List Text = take (end - (start - 1)) (drop (start - 1) lines) in
    if not (leb 1 start && leb start end && leb end total)
    then refused stale_lines
    else if not (text_eq (normalize_newlines (joined removed)) (normalize_newlines old))
    then refused stale_text
    else edited (
        joined (take (start - 1) lines)
        ++ (with_line_end removed new_text (leb total end) ++ joined (drop end lines)))

-- Bytes are decoded as UTF-8, or else byte by byte, and encoded in the same way.
module _ (decode : Bytes → Option Text) (encode : Text → Bytes) where
  abbrev with_codec : (Text → Edited Text) → Bytes → Edited Bytes
  with_codec f content = elim (decode content) [
    | some text ↦ elim (f text) [ refused e ↦ refused e | edited t ↦ edited (encode t) ]
    | none ↦ f content
  ]

  -- `_native_replace_string`, for the content that it commits
  unfoldable pub native_replace_string : Bytes → Text → Text → Edited Bytes
  unfolding replace_text
  native_replace_string content old new =
      if null old
      then refused no_old_text
      else if has 0 content
      then refused binary
      else with_codec (λ text. replace_text text old new) content

  -- `_native_replace_match`, for the content that it commits
  unfoldable pub native_replace_match : Bytes → ℕ → ℕ → Text → Text → Edited Bytes
  unfolding replace_lines
  native_replace_match content start end old new_text =
      if has 0 content
      then refused binary
      else with_codec (λ text. replace_lines text start end old new_text) content
