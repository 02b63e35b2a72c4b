-- ===== src/Python/Shlex.antt =====
-- `shlex.split`, `shlex.quote` and `shlex.join`: the reader's state machine in POSIX mode, with
-- `whitespace_split` on and no comment characters.
pub mod Size
use noah_code.Prelude.{
  ℕ, Bool, true, false, ◌&&◌, ◌||◌, not, Option, none, some, List, [], ◌∷◌, ◌++◌, map, ◌==◌,
  if◌then◌else◌, any, null,
}
use noah_code.Python.Text.{Text, codes, is_word, join}

abbrev pub quote_char : ℕ
quote_char = 39

abbrev pub double_quote : ℕ
double_quote = 34

abbrev pub backslash : ℕ
backslash = 92

-- `blank` and `word` are the states ' ' and 'a'; an escape remembers the state that it returns to.
pub data Mode : Type 0 where
  blank : Mode
  word : Mode
  quoted : ℕ → Mode
  escaped_word : Mode
  escaped_quoted : Mode

pub record Reader : Type 0 where
  pub mode : Mode
  pub token : Text
  pub was_quoted : Bool
  pub out : List Text

abbrev pub start : Reader
start = record { mode = blank; token = []; was_quoted = false; out = [] }

abbrev pub is_blank : ℕ → Bool
is_blank c = c == 32 || c == 9 || c == 13 || c == 10

-- The token is passed on unless it is empty and was never quoted.
abbrev pub emit : Reader → Reader
emit r =
    if null r.token && not r.was_quoted
    then record r { mode = blank }
    else record { mode = blank; token = []; was_quoted = false; out = r.out ++ r.token ∷ [] }

abbrev put : Reader → Mode → Text → Reader
put r m s = record r { mode = m; token = r.token ++ s }

unfoldable pub read_char : Mode → Reader → ℕ → Reader
read_char blank r c =
    if is_blank c
    then emit r
    else if c == backslash
    then record r { mode = escaped_word }
    else if c == quote_char || c == double_quote
    then record r { mode = quoted c }
    else put r word (c ∷ [])
read_char word r c =
    if is_blank c
    then emit r
    else if c == quote_char || c == double_quote
    then record r { mode = quoted c }
    else if c == backslash
    then record r { mode = escaped_word }
    else put r word (c ∷ [])
read_char (quoted q) r c =
    if c == q
    then record r { mode = word; was_quoted = true }
    else if c == backslash && q == double_quote
    then record r { mode = escaped_quoted; was_quoted = true }
    else put (record r { was_quoted = true }) (quoted q) (c ∷ [])
read_char escaped_word r c = put r word (c ∷ [])
read_char escaped_quoted r c =
    if c == backslash || c == double_quote
    then put r (quoted double_quote) (c ∷ [])
    else put r (quoted double_quote) (backslash ∷ c ∷ [])

abbrev pub finish : Mode → Reader → Option (List Text)
finish blank r = some (emit r).out
finish word r = some (emit r).out
finish _ r = none

unfoldable pub read : Reader → Text → Option (List Text)
unfolding read_char
read r [] = finish r.mode r
read r (c ∷ s) = read (read_char r.mode r c) s

-- `shlex.split(s)`; `none` is the ValueError of a quotation or an escape that is not closed.
unfoldable pub split : Text → Option (List Text)
unfolding read
split s = read start s

-- `try: tokens = shlex.split(s)` / `except ValueError: tokens = []`
abbrev pub split_or_empty : Option (List Text) → List Text
split_or_empty none = []
split_or_empty (some l) = l

-- The characters outside of which `quote` puts a text in quotes.
abbrev pub is_safe : ℕ → Bool
is_safe c = is_word c || any (λ d. d == c) (codes "@%+=:,./-")

unfoldable pub escape_quotes : Text → Text
escape_quotes [] = []
escape_quotes (c ∷ s) = (if c == quote_char then codes "'\"'\"'" else c ∷ []) ++ escape_quotes s

unfoldable pub quote : Text → Text
unfolding escape_quotes
quote s =
    if null s
    then codes "''"
    else if any (λ c. not (is_safe c)) s
    then quote_char ∷ (escape_quotes s ++ quote_char ∷ [])
    else s

-- `shlex.join(l)`
unfoldable pub join_tokens : List Text → Text
unfolding quote join
join_tokens l = join (codes " ") (map quote l)
