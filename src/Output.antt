-- ===== src/Output.antt =====
-- `ToolOutputStore` (tool_output.py): long outputs of tools, kept in full and shown in part.
pub mod Bounds
mod Tests
use Prim.Native.Nat.{◌/◌, ◌%◌}
use noah_code.Prelude.{
  drop, ℕ, zero, suc, ◌+◌, ◌-◌, ◌*◌, max, Bool, true, false, ◌&&◌, ◌||◌, not, Option, none, some,
  List, [], ◌∷◌, ◌++◌, ◌==◌, ltb, leb, if◌then◌else◌, any, take, length, collect,
}
use noah_code.Python.Text.{Text, text_eq, codes, starts_with, push_first}
use noah_code.Files.{Bytes}

pub record BoundedOutput : Type 0 where
  pub text : Text
  pub output_id : Option Text
  pub original_chars : ℕ
  pub original_lines : ℕ

-- The directory of outputs by their ids, and the quota.
pub record OutputStore : Type 0 where
  pub files : List (Text × Bytes)
  pub max_total_bytes : ℕ

pub data StoreError : Type 0 where
  collision quota : Text → StoreError

-- The characters at which `str.splitlines` ends a line.
abbrev is_line_end : ℕ → Bool
is_line_end c = any (λ d. d == c) (10 ∷ 13 ∷ 11 ∷ 12 ∷ 28 ∷ 29 ∷ 30 ∷ 133 ∷ 8232 ∷ 8233 ∷ [])

-- `text.splitlines(keepends=True)`
unfoldable pub split_lines : Text → List Text
unfolding starts_with
split_lines [] = []
split_lines (c ∷ s) =
    let rest : List Text = split_lines s in
    if (c == b'\r') && starts_with s (codes "\n")
    then push_first c rest
    else if is_line_end c
    then (c ∷ []) ∷ rest
    else push_first c rest

-- A number in decimal digits.
unfoldable pub digits_within : ℕ → ℕ → Text
digits_within zero n = []
digits_within (suc fuel) n =
    let front : Text = digits_within fuel (n / 10) in
    if ltb n 10 then (b'0' + n) ∷ [] else front ++ ((b'0' + n % 10) ∷ [])

unfoldable pub decimal : ℕ → Text
unfolding digits_within
decimal n = digits_within (suc n) n

unfoldable pub find_output : List (Text × Bytes) → Text → Option Bytes
unfolding text_eq
find_output [] id = none
find_output ((k, content) ∷ l) id = if text_eq k id then some content else find_output l id

abbrev pub used : List (Text × Bytes) → ℕ
used [] = 0
used ((k, content) ∷ l) = length content + used l

pub data Stored : Type 0 where
  refused : StoreError → Stored
  kept : OutputStore → Text → Stored

unfoldable pub notice : ℕ → Text → Text
unfolding decimal
notice omitted id =
    codes "\n...["
    ++ decimal omitted
    ++ codes " lines omitted; full output id="
    ++ id
    ++ codes "; read with self.ws.read_output('"
    ++ id
    ++ codes "', lines=(START, END))]...\n"

-- `l[-n:]`, where `n` is not zero
unfoldable pub from_end {ℓ} : {A : Type ℓ} → ℕ → List A → List A
unfolding drop
from_end n l = drop (length l - n) l

-- How many of them stand before the notice.
abbrev pub head_share : ℕ → ℕ
head_share n = max (n * 2 / 3) 1

abbrev pub tail_share : ℕ → ℕ
tail_share n = max (n - head_share n) 1

abbrev line_budget : ℕ → ℕ
line_budget max_lines = max (max_lines - 3) 2

-- The notice on the lines that are left out.
unfoldable pub note_of : List Text → Text → ℕ → Text
unfolding notice
note_of lines id max_lines =
    notice (length lines - head_share (line_budget max_lines) - tail_share (line_budget max_lines))
      id

unfoldable pub rendered : List Text → Text → ℕ → ℕ → Text
unfolding note_of from_end
rendered lines id max_chars max_lines =
    let head_lines : ℕ = head_share (line_budget max_lines) in
    let tail_lines : ℕ = tail_share (line_budget max_lines) in
    let note : Text = note_of lines id max_lines in
    let available : ℕ = max (max_chars - length note) 2 in
    take (head_share available) (collect (λ l. l) (take head_lines lines))
    ++ note
    ++ from_end (tail_share available) (collect (λ l. l) (from_end tail_lines lines))

-- An output that is shown in full.
unfoldable pub in_full : Text → BoundedOutput
unfolding split_lines
in_full text = record {
  text = text;
  output_id = none;
  original_chars = length text;
  original_lines = length (split_lines text);
}

-- The encoding to UTF-8 and the first digits of the hash.
module _ (encode : Text → Bytes) (hash : Bytes → Text) where
  unfoldable pub store_found : OutputStore → Text → Bytes → Option Bytes → Stored
  unfolding text_eq
  store_found s id encoded (some content) =
      if text_eq content encoded then kept s id else refused (collision id)
  store_found s id encoded none =
      if ltb s.max_total_bytes (used s.files + length encoded)
      then refused (quota id)
      else kept (record s { files = s.files ++ (id, encoded) ∷ [] }) id

  unfoldable pub store : OutputStore → Text → Stored
  unfolding store_found find_output
  store s text =
      let encoded : Bytes = encode text in
      let id : Text = hash encoded in store_found s id encoded (find_output s.files id)

  unfoldable pub shown : Text → List Text → ℕ → ℕ → Stored → Option (OutputStore × BoundedOutput)
  unfolding rendered
  shown text lines max_chars max_lines (refused e) = none
  shown text lines max_chars max_lines (kept s' id) = some (
    s',
    record {
      text = rendered lines id max_chars max_lines;
      output_id = some id;
      original_chars = length text;
      original_lines = length lines;
    },
  )

  -- `none` is the error of `store`.
  unfoldable pub bound : OutputStore → Text → ℕ → ℕ → Option (OutputStore × BoundedOutput)
  unfolding split_lines store shown in_full
  bound s text max_chars max_lines =
      let lines : List Text = split_lines text in
      if leb (length text) max_chars && leb (length lines) max_lines
      then some (s, in_full text)
      else shown text lines max_chars max_lines (store s text)
