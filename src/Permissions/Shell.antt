-- ===== src/Permissions/Shell.antt =====
-- The scans of a command line that respect its quotes (permissions.py).
pub mod Pipelines
use noah_code.Prelude.{
  ℕ, Bool, true, false, ◌&&◌, ◌||◌, not, Option, none, some, List, [], ◌∷◌, ◌==◌, if◌then◌else◌,
  any,
}
use noah_code.Python.Text.{Text, codes, texts, starts_with, contains, has}
use noah_code.Python.Shlex.{quote_char, double_quote, backslash, split}
use noah_code.Python.Regex.{sub_empty}
use noah_code.Permissions.Policy.Patterns.{devnull_redirect}

-- `in_single` and `in_double`
pub record Quotes : Type 0 where
  pub in_single : Bool
  pub in_double : Bool

abbrev pub outside : Quotes
outside = record { in_single = false; in_double = false }

abbrev pub is_outside : Quotes → Bool
is_outside q = not q.in_single && not q.in_double

-- The character opens or closes a quotation.
abbrev pub turns : Quotes → ℕ → Bool
turns q c = c == quote_char && not q.in_double || c == double_quote && not q.in_single

abbrev pub turn : Quotes → ℕ → Quotes
turn q c =
    if c == quote_char
    then record q { in_single = not q.in_single }
    else record q { in_double = not q.in_double }

-- The body of a brace form: the text up to the next `}`, if there is one.
unfoldable pub brace_body : Text → Option Text
brace_body [] = none
brace_body (c ∷ s) = elim (c == b'}') [
  | true ↦ some []
  | false ↦ elim (brace_body s) [ none ↦ none | some b ↦ some (c ∷ b) ]
]

abbrev expands : Option Text → Bool
expands none = false
expands (some body) = has b',' body || contains body (codes "..")

-- `skip` says that the character stands behind a backslash.
unfoldable pub ambiguous_from : Bool → Quotes → Text → Bool
unfolding brace_body contains
ambiguous_from skip q [] = false
ambiguous_from true q (c ∷ s) = ambiguous_from false q s
ambiguous_from false q (c ∷ s) = elim (c == backslash && not q.in_single) [
  | true ↦ ambiguous_from true q s
  | false ↦ elim (turns q c) [
    | true ↦ ambiguous_from false (turn q c) s
    | false ↦
        elim (not q.in_single && (c == b'$' || c == b'`')
          || is_outside q && c == b'{' && expands (brace_body s)) [
            | true ↦ true
            | false ↦ ambiguous_from false q s
          ]
  ]
]

unfoldable pub has_ambiguous_shell_expansion : Text → Bool
unfolding ambiguous_from
has_ambiguous_shell_expansion command = ambiguous_from false outside command

-- A loop that looks outside of quotations for a place where the test holds.
unfoldable pub scan : (Text → Bool) → Quotes → Text → Bool
scan p q [] = false
scan p q (c ∷ s) = elim (turns q c) [
  | true ↦ scan p (turn q c) s
  | false ↦ elim (is_outside q && p (c ∷ s)) [ true ↦ true | false ↦ scan p q s ]
]

abbrev pub redirects : Text → Bool
redirects [] = false
redirects (c ∷ s) = c == b'>' || c == b'<'

unfoldable pub is_redirecting : Text → Bool
unfolding scan
is_redirecting command = scan redirects outside (sub_empty devnull_redirect command)

unfoldable pub specials : List Text
specials = texts ("|" ∷ "&&" ∷ "||" ∷ ";" ∷ "&" ∷ "`" ∷ "$(" ∷ "${" ∷ ">" ∷ "<" ∷ ">>" ∷ "\n" ∷ [])

unfoldable pub special_at : Text → Bool
unfolding specials starts_with
special_at s = any (starts_with s) specials

abbrev is_open : Option (List Text) → Bool
is_open none = true
is_open (some _) = false

unfoldable pub is_compound : Text → Bool
unfolding has_ambiguous_shell_expansion scan special_at
is_compound source =
    let command = sub_empty devnull_redirect source in
    has_ambiguous_shell_expansion command
    || scan special_at outside command
    || is_open (split command)

abbrev pub push_first : ℕ → List Text → List Text
push_first c [] = (c ∷ []) ∷ []
push_first c (w ∷ ws) = (c ∷ w) ∷ ws

-- The loop of `_split_pipeline`; the segment under way is the first of the result.
unfoldable pub split_from : Quotes → Text → List Text
split_from q [] = [] ∷ []
split_from q (c ∷ s) = elim (turns q c) [
  | true ↦ push_first c (split_from (turn q c) s)
  | false ↦ elim (c == b'|' && is_outside q) [
    | true ↦ [] ∷ split_from q s
    | false ↦ push_first c (split_from q s)
  ]
]

unfoldable pub split_pipeline : Text → List Text
unfolding split_from
split_pipeline command = split_from outside command

-- `len(segments) > 1`
abbrev pub several : List Text → Bool
several (a ∷ b ∷ l) = true
several _ = false
