-- ===== src/Python/Fnmatch/Literal.antt =====
-- Patterns without `*`, `?` and `[`.
use noah_code.Prelude.{
  ℕ, zero, true, ◌≡◌, ◌↔◌, refl, arith, [], ◌∷◌, ◌++◌, map, ◌||◌, ◌==◌, All, false,
}
use noah_code.Python.Text.{Text, codes}
use noah_code.Python.Fnmatch.{star, literal, compile, matches, fnmatch}

-- The character stands for itself in a pattern.
abbrev pub IsPlain : ℕ → Type 0
IsPlain c = (c == b'*' || c == b'?' || c == b'[') ≡ false

abbrev pub IsLiteral : Text → Type 0
IsLiteral = All IsPlain

compile-append :
    (p q : Text) → IsLiteral p → compile zero (p ++ q) ≡ map literal p ++ compile zero q
unfolding compile
compile-append [] q h = refl
compile-append (c ∷ p) q h = ground (arith, compile-append p q h.1)

pub compile-literal : (p : Text) → IsLiteral p → compile zero p ≡ map literal p
unfolding compile
compile-literal [] h = refl
compile-literal (c ∷ p) h = ground (arith, compile-literal p h.1)

matches-literal : (p t : Text) → (matches (map literal p) t ≡ true) ↔ (t ≡ p)
unfolding matches
matches-literal [] [] = ground arith
matches-literal [] (d ∷ t) = ground arith
matches-literal (c ∷ p) [] = ground arith
matches-literal (c ∷ p) (d ∷ t) = ground (arith, matches-literal p t)

-- A literal pattern matches itself and nothing else.
pub fnmatch-literal : (p t : Text) → IsLiteral p → (fnmatch t p ≡ true) ↔ (t ≡ p)
unfolding fnmatch
fnmatch-literal p t h = rw (compile-literal p h) (matches-literal p t)

matches-star : (t : Text) → matches (star ∷ []) t ≡ true
unfolding matches
matches-star [] = refl
matches-star (c ∷ t) = ground (arith, matches-star t)

matches-append_star : (p t : Text) → matches (map literal p ++ star ∷ []) (p ++ t) ≡ true
unfolding matches
matches-append_star [] t = matches-star t
matches-append_star (c ∷ p) t = ground (arith, matches-append_star p t)

-- A literal text with a star behind it matches all that begins with the text.
pub fnmatch-star : (p t : Text) → IsLiteral p → fnmatch (p ++ t) (p ++ codes "*") ≡ true
unfolding fnmatch
fnmatch-star p t h = rw (compile-append p (codes "*") h) (unfold compile in matches-append_star p t)
