-- ===== src/Python/Fnmatch.antt =====
-- `fnmatch.fnmatchcase`, and `fnmatch.fnmatch` on POSIX, where no case is folded.
pub mod Literal
use noah_code.Prelude.{
  ℕ, zero, suc, ◌-◌, Bool, true, false, ◌&&◌, not, Option, none, some, List, [], ◌∷◌, leb, ◌==◌,
  if◌then◌else◌, any, null, length,
}
use noah_code.Python.Text.{Text}

pub data Item : Type 0 where
  star : Item
  any_char : Item
  literal : ℕ → Item
  set : Bool → List (ℕ × ℕ) → Item

-- The text up to the bracket that closes a set, and what follows it.
unfoldable pub to_bracket : Text → Option (Text × Text)
to_bracket [] = none
to_bracket (c ∷ s) = elim (c == b']') [
  | true ↦ some ([], s)
  | false ↦ elim (to_bracket s) [ none ↦ none | some (a, b) ↦ some (c ∷ a, b) ]
]

-- A bracket directly behind `[` or `[!` belongs to the set.
unfoldable pub set_body : Text → Option (Text × Text)
unfolding to_bracket
set_body [] = none
set_body (c ∷ s) =
    if c == b']'
    then (elim (to_bracket s) [ none ↦ none | some (a, b) ↦ some (c ∷ a, b) ])
    else to_bracket (c ∷ s)

-- The members of a set as ranges; a hyphen that stands first or last is itself.
unfoldable pub ranges : Text → List (ℕ × ℕ)
ranges [] = []
ranges (a ∷ []) = (a, a) ∷ []
ranges (a ∷ b ∷ []) = (a, a) ∷ (b, b) ∷ []
ranges (a ∷ b ∷ c ∷ s) = elim (b == b'-') [
  | true ↦ (a, c) ∷ ranges s
  | false ↦ (a, a) ∷ ranges (b ∷ c ∷ s)
]

abbrev close : Bool → Option (Text × Text) → Option (Item × Text)
close negated none = none
close negated (some (body, rest)) = some (set negated (ranges body), rest)

-- The set that follows a `[`, and the text behind it; none where no bracket closes it.
unfoldable pub read_set : Text → Option (Item × Text)
unfolding set_body ranges
read_set [] = none
read_set (c ∷ s) = if c == b'!' then close true (set_body s) else close false (set_body (c ∷ s))

-- The first argument counts the characters that belong to the set just read.
unfoldable pub compile : ℕ → Text → List Item
unfolding read_set
compile skip [] = []
compile (suc skip) (c ∷ s) = compile skip s
compile zero (c ∷ s) = elim (c == b'*') [
  | true ↦ star ∷ compile zero s
  | false ↦ elim (c == b'?') [
    | true ↦ any_char ∷ compile zero s
    | false ↦ elim (c == b'[') [
      | true ↦ elim (read_set s) [
        | none ↦ literal c ∷ compile zero s
        | some (item, rest) ↦ item ∷ compile (length s - length rest) s
      ]
      | false ↦ literal c ∷ compile zero s
    ]
  ]
]

unfoldable pub accepts : Item → ℕ → Bool
accepts star c = true
accepts any_char c = true
accepts (literal d) c = d == c
accepts (set negated l) c =
    let inside = any (λ (lo, hi). leb lo c && leb c hi) l in if negated then not inside else inside

unfoldable pub matches : List Item → Text → Bool
unfolding accepts
matches [] s = null s
matches (star ∷ p) [] = matches p []
matches (star ∷ p) (c ∷ s) = elim (matches p (c ∷ s)) [ true ↦ true | false ↦ matches (star ∷ p) s ]
matches (i ∷ p) [] = false
matches (i ∷ p) (c ∷ s) = accepts i c && matches p s

-- `fnmatch.fnmatch(name, pattern)`
unfoldable pub fnmatch : Text → Text → Bool
unfolding compile matches
fnmatch name pattern = matches (compile zero pattern) name
