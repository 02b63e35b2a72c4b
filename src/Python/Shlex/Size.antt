-- ===== src/Python/Shlex/Size.antt =====
-- Splitting a text gives no more characters and tokens than the text has characters, and one.
use noah_code.Prelude.{
  ℕ, suc, ◌+◌, ◌≤◌, ◌≡◌, refl, arith, some, List, [], ◌∷◌, ◌++◌, length, length-append, ◌∙◌,
}
use noah_code.Python.Text.{Text, size}
use noah_code.Python.Shlex.{
  Mode, Reader, quoted, escaped_quoted, start, read_char, read, finish, split,
}
use noah_code.Python.Text.Laws.{size-append}

-- A backslash inside of quotes may still come out together with the character behind it.
abbrev pending : Mode → ℕ
pending escaped_quoted = 1
pending _ = 0

abbrev weight : Reader → ℕ
weight r = size r.out + length r.token + pending r.mode

size-snoc : (l : List Text) (t : Text) → size (l ++ t ∷ []) ≡ suc (size l + length t)
size-snoc l t = size-append l (t ∷ []) ∙ unfold size in omega arith

weight-read_char :
    (m : Mode) (r : Reader) (c : ℕ) → r.mode ≡ m → weight (read_char m r c) ≤ suc (weight r)
unfolding read_char
weight-read_char (quoted q) r c e = ground (arith, length-append r.token (c ∷ []))
weight-read_char escaped_quoted r c e =
    ground (arith, length-append r.token (c ∷ []), length-append r.token (92 ∷ c ∷ []))
weight-read_char _ r c e = ground (arith, length-append r.token (c ∷ []), size-snoc r.out r.token)

size-finish :
    (m : Mode) (r : Reader) (l : List Text) → finish m r ≡ some l → size l ≤ suc (weight r)
size-finish m r l e = ground (arith, size-snoc r.out r.token)

size-read :
    (s : Text) (r : Reader) (l : List Text) → read r s ≡ some l → size l ≤ suc (weight r + length s)
unfolding read
size-read [] r l e = omega (arith, size-finish r.mode r l e)
size-read (c ∷ s) r l e =
    omega (arith, size-read s (read_char r.mode r c) l e, weight-read_char r.mode r c refl)

-- The tokens of a text, one more for each, do not outgrow the text by more than one.
pub size-split : (s : Text) (l : List Text) → split s ≡ some l → size l ≤ suc (length s)
unfolding split
size-split s l e = unfold size in omega (arith, size-read s start l e)
