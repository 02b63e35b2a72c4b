-- ===== src/Python/Regex.antt =====
-- The part of `re` that the program's patterns use: a backtracking matcher that lists the ends of
-- its matches in the order in which Python tries them.
use noah_code.Prelude.{
  ℕ, zero, suc, ◌-◌, String, Bool, true, false, not, Option, none, some, List, [], ◌∷◌, ◌++◌, ◌==◌,
  if◌then◌else◌, any, null, length, collect,
}
use noah_code.Python.Text.{Text, codes, is_word, is_space, lower_code}

-- No starred part of the program's patterns matches the empty text.
pub data Regex : Type 0 where
  empty : Regex
  one : (ℕ → Bool) → Regex
  cat : Regex → Regex → Regex
  alt : Regex → Regex → Regex
  star : Regex → Regex
  boundary : Regex
  not_ahead : (ℕ → Bool) → Regex
  line_end : Regex

-- A place in the text: the character before it, and the text behind it.
pub record Spot : Type 0 where
  pub prev : Option ℕ
  pub rest : Text

abbrev pub at_word : Option ℕ → Bool
at_word none = false
at_word (some c) = is_word c

abbrev pub head_of : Text → Option ℕ
head_of [] = none
head_of (c ∷ s) = some c

-- `$`: the end, or a newline that stands last.
abbrev pub at_line_end : Text → Bool
at_line_end [] = true
at_line_end (c ∷ []) = c == 10
at_line_end (c ∷ d ∷ s) = false

abbrev xor : Bool → Bool → Bool
xor true b = not b
xor false b = b

abbrev pub step : (ℕ → Bool) → Text → List Spot
step p [] = []
step p (c ∷ s) = if p c then record { prev = some c; rest = s } ∷ [] else []

abbrev pub ahead : (ℕ → Bool) → Text → Bool
ahead p [] = false
ahead p (c ∷ s) = p c

unfoldable pub repeat : ℕ → (Spot → List Spot) → Spot → List Spot
repeat zero f s = s ∷ []
repeat (suc n) f s = collect (repeat n f) (f s) ++ s ∷ []

unfoldable pub run : Regex → Spot → List Spot
unfolding repeat
run empty s = s ∷ []
run (one p) s = step p s.rest
run (cat r q) s = collect (run q) (run r s)
run (alt r q) s = run r s ++ run q s
run (star r) s = repeat (length s.rest) (run r) s
run boundary s = if xor (at_word s.prev) (at_word (head_of s.rest)) then s ∷ [] else []
run (not_ahead p) s = if ahead p s.rest then [] else s ∷ []
run line_end s = if at_line_end s.rest then s ∷ [] else []

unfoldable pub search_from : Regex → Option ℕ → Text → Bool
unfolding run
search_from r p [] = not (null (run r (record { prev = p; rest = [] })))
search_from r p (c ∷ s) = elim (run r (record { prev = p; rest = c ∷ s })) [
  | [] ↦ search_from r (some c) s
  | m ∷ ms ↦ true
]

-- `r.search(s) is not None`
unfoldable pub search_text : Regex → Text → Bool
unfolding search_from
search_text r s = search_from r none s

-- `r.fullmatch(s) is not None`
unfoldable pub fullmatch : Regex → Text → Bool
unfolding run
fullmatch r s = any (λ (m : Spot). null m.rest) (run r (record { prev = none; rest = s }))

-- `r.match(s) is not None`
unfoldable pub match_start : Regex → Text → Bool
unfolding run
match_start r s = not (null (run r (record { prev = none; rest = s })))

-- `r.sub("", s)`; the first argument counts what is left of the match just found.
unfoldable pub sub_from : ℕ → Regex → Option ℕ → Text → Text
unfolding run
sub_from skip r p [] = []
sub_from (suc skip) r p (c ∷ s) = sub_from skip r (some c) s
sub_from zero r p (c ∷ s) = elim (run r (record { prev = p; rest = c ∷ s })) [
  | [] ↦ c ∷ sub_from zero r (some c) s
  | m ∷ ms ↦ sub_from (length s - length m.rest) r (some c) s
]

unfoldable pub sub_empty : Regex → Text → Text
unfolding sub_from
sub_empty r s = sub_from zero r none s

-- How the patterns are written.
abbrev pub chr : ℕ → Regex
chr c = one (λ d. d == c)

abbrev pub among : String → Regex
among cs = one (λ d. any (λ e. d == e) (codes cs))

abbrev pub plus : Regex → Regex
plus r = cat r (star r)

abbrev pub opt : Regex → Regex
opt r = alt r empty

abbrev pub spaces : Regex
spaces = plus (one is_space)

abbrev pub any_but : ℕ → Regex
any_but c = one (λ d. not (d == c))

-- `.`
abbrev pub dot : Regex
dot = any_but 10

abbrev chars : Text → Regex
chars [] = empty
chars (c ∷ []) = chr c
chars (c ∷ d ∷ s) = cat (chr c) (chars (d ∷ s))

abbrev pub lit : String → Regex
lit w = chars (codes w)

-- Under `re.IGNORECASE`.
abbrev pub chars_ignoring_case : Text → Regex
chars_ignoring_case [] = empty
chars_ignoring_case (c ∷ []) = one (λ d. lower_code d == lower_code c)
chars_ignoring_case (c ∷ d ∷ s) =
    cat (one (λ e. lower_code e == lower_code c)) (chars_ignoring_case (d ∷ s))

abbrev pub ilit : String → Regex
ilit w = chars_ignoring_case (codes w)

abbrev pub seq : List Regex → Regex
seq [] = empty
seq (r ∷ []) = r
seq (r ∷ q ∷ l) = cat r (seq (q ∷ l))

abbrev pub alts : List Regex → Regex
alts [] = one (λ _. false)
alts (r ∷ []) = r
alts (r ∷ q ∷ l) = alt r (alts (q ∷ l))

-- `\b…\b`
abbrev pub whole : Regex → Regex
whole r = cat boundary (cat r boundary)
