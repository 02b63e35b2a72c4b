-- ===== src/Python/Text.antt =====
-- Python's `str`, as the list of its code points. `lower` and the word characters are those of
-- ASCII; white space is that of `str.isspace`.
pub mod Laws
use Prim.Native.Char.{code}
use noah_code.Prelude.{
  ℕ, zero, suc, ◌+◌, String, Bool, true, false, ◌&&◌, ◌||◌, not, Option, none, some, List, [], ◌∷◌,
  ◌++◌, map, ltb, leb, ◌==◌, if◌then◌else◌, any, null, length,
}

abbrev pub Text : Type 0
Text = List ℕ

-- The code points of a literal.
abbrev pub codes : String → Text
codes String.[] = []
codes (String.◌∷◌ c s) = code c ∷ codes s

abbrev pub texts : List String → List Text
texts = map codes

unfoldable pub text_eq : Text → Text → Bool
text_eq [] [] = true
text_eq [] (d ∷ t) = false
text_eq (c ∷ s) [] = false
text_eq (c ∷ s) (d ∷ t) = c == d && text_eq s t

-- The characters of the texts, and one for each text.
unfoldable pub size : List Text → ℕ
size [] = 0
size (t ∷ l) = suc (length t + size l)

-- `t in {…}`
unfoldable pub member : Text → List Text → Bool
member t l = any (text_eq t) l

-- `s.startswith(p)`
unfoldable pub starts_with : Text → Text → Bool
starts_with s [] = true
starts_with [] (d ∷ p) = false
starts_with (c ∷ s) (d ∷ p) = c == d && starts_with s p

-- The text behind the prefix.
unfoldable pub behind : Text → Text → Option Text
behind [] s = some s
behind (c ∷ p) [] = none
behind (c ∷ p) (d ∷ s) = elim (c == d) [ true ↦ behind p s | false ↦ none ]

-- `p in s`
unfoldable pub contains : Text → Text → Bool
unfolding starts_with
contains [] p = null p
contains (c ∷ s) p = starts_with (c ∷ s) p || contains s p

-- `s.endswith(p)`
unfoldable pub ends_with : Text → Text → Bool
unfolding text_eq
ends_with [] p = null p
ends_with (c ∷ s) p = text_eq (c ∷ s) p || ends_with s p

abbrev pub has : ℕ → Text → Bool
has c s = any (λ d. d == c) s

unfoldable pub lower_code : ℕ → ℕ
lower_code c = if leb b'A' c && leb c b'Z' then c + 32 else c

unfoldable pub lower : Text → Text
unfolding lower_code
lower = map lower_code

-- `str.isspace` of one character
unfoldable pub is_space : ℕ → Bool
is_space c =
    (leb 9 c && leb c 13)
    || (leb 28 c && leb c 32)
    || c == 0x85
    || c == 0xa0
    || c == 0x1680
    || (leb 0x2000 c && leb c 0x200a)
    || c == 0x2028
    || c == 0x2029
    || c == 0x202f
    || c == 0x205f
    || c == 0x3000

abbrev pub is_digit : ℕ → Bool
is_digit c = leb b'0' c && leb c b'9'

abbrev pub is_letter : ℕ → Bool
is_letter c = (leb b'a' c && leb c b'z') || (leb b'A' c && leb c b'Z')

-- `\w`
abbrev pub is_word : ℕ → Bool
is_word c = is_letter c || is_digit c || c == b'_'

unfoldable pub strip_left : Text → Text
unfolding is_space
strip_left [] = []
strip_left (c ∷ s) = elim (is_space c) [ true ↦ strip_left s | false ↦ c ∷ s ]

unfoldable pub strip_right : Text → Text
unfolding is_space
strip_right [] = []
strip_right (c ∷ s) = let r = strip_right s in if is_space c && null r then [] else c ∷ r

-- `s.strip()`
unfoldable pub strip : Text → Text
unfolding strip_left strip_right
strip s = strip_right (strip_left s)

-- `s.split(c, 1)[0]`
unfoldable pub before : ℕ → Text → Text
before c [] = []
before c (d ∷ s) = if d == c then [] else d ∷ before c s

-- `s.split(c, 1)[1]`, where `c` stands in `s`
unfoldable pub after? : ℕ → Text → Option Text
after? c [] = none
after? c (d ∷ s) = if d == c then some s else after? c s

-- `s.rsplit(c, 1)`: none where `c` does not stand in `s`
unfoldable pub rsplit? : ℕ → Text → Option (Text × Text)
rsplit? c [] = none
rsplit? c (d ∷ s) = elim (rsplit? c s) [
  | some (a, b) ↦ some (d ∷ a, b)
  | none ↦ if d == c then some ([], s) else none
]

abbrev pub push_first : ℕ → List Text → List Text
push_first c [] = (c ∷ []) ∷ []
push_first c (w ∷ ws) = (c ∷ w) ∷ ws

-- `s.split(c)`
unfoldable pub split_on : ℕ → Text → List Text
split_on c [] = [] ∷ []
split_on c (d ∷ s) = let r = split_on c s in if d == c then [] ∷ r else push_first d r

-- `sep.join(l)`
unfoldable pub join : Text → List Text → Text
join sep [] = []
join sep (w ∷ []) = w
join sep (w ∷ v ∷ l) = w ++ (sep ++ join sep (v ∷ l))

unfoldable pub up_to_space : Text → Text
unfolding is_space
up_to_space [] = []
up_to_space (c ∷ s) = if is_space c then [] else c ∷ up_to_space s

-- `s.split(None, 1)[0]`, where `s` is not blank
unfoldable pub first_word : Text → Text
unfolding strip_left up_to_space
first_word s = up_to_space (strip_left s)

-- `s.split()`; the second argument is the word under way.
unfoldable pub words_from : Text → Text → List Text
unfolding is_space
words_from w [] = if null w then [] else w ∷ []
words_from w (c ∷ s) = elim (is_space c) [
  | true ↦ if null w then words_from [] s else w ∷ words_from [] s
  | false ↦ words_from (w ++ c ∷ []) s
]

unfoldable pub words : Text → List Text
unfolding words_from
words s = words_from [] s
