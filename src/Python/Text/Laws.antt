-- ===== src/Python/Text/Laws.antt =====
-- The tests on texts decide equality.
use noah_code.Prelude.{true, ◌≡◌, ◌↔◌, refl, arith, [], ◌∷◌, List, length, ◌++◌, ◌≤◌, ◌+◌}
use noah_code.Python.Text.{Text, text_eq, size, strip_left, strip_right, strip}

pub text_eq_iff : (s t : Text) → (text_eq s t ≡ true) ↔ (s ≡ t)
unfolding text_eq
text_eq_iff (c ∷ s) (d ∷ t) = ground (arith, text_eq_iff s t)
text_eq_iff _ _ = ground arith

pub text_eq_refl : (s : Text) → text_eq s s ≡ true
text_eq_refl s = (text_eq_iff s s).1 refl

pub size-append : (k l : List Text) → size (k ++ l) ≡ size k + size l
unfolding size
size-append [] l = omega arith
size-append (t ∷ k) l = omega (arith, size-append k l)

pub length-strip_left : (s : Text) → length (strip_left s) ≤ length s
unfolding strip_left
length-strip_left [] = omega arith
length-strip_left (c ∷ s) = ground (arith, length-strip_left s)

pub length-strip_right : (s : Text) → length (strip_right s) ≤ length s
unfolding strip_right
length-strip_right [] = omega arith
length-strip_right (c ∷ s) = ground (arith, length-strip_right s)

pub length-strip : (s : Text) → length (strip s) ≤ length s
unfolding strip
length-strip s = omega (arith, length-strip_left s, length-strip_right (strip_left s))
