-- ===== src/Edits/Splice.antt =====
-- What an edit leaves as it was (tools/workspace_tools.py).
use noah_code.Prelude.{
  drop, ℕ, zero, suc, true, [], ◌∷◌, ◌++◌, ◌==◌, ◌≡◌, refl, ap, ◌∙◌, subst, arith, ltb,
  if◌then◌else◌, length, Bool-cases, inl, inr,
}
use noah_code.Python.Text.{Text, starts_with}
use noah_code.Edits.{
  refused, edited, count_from, count, replace_first, replace_text, not_found, many,
}

starts_with-parts : (s p : Text) → starts_with s p ≡ true → s ≡ p ++ drop (length p) s
unfolding starts_with drop
starts_with-parts s [] h = refl
starts_with-parts [] (d ∷ p) h = ground (arith, h)
starts_with-parts (c ∷ s) (d ∷ p) h =
    let first : c ≡ d = ground (arith, h) in
    ap (λ x. x ∷ s) first ∙ ap (λ t. d ∷ t) (starts_with-parts s p (ground (arith, h)))

-- The text is a prefix, the old text and a suffix, and the result has the new text between the two.
abbrev pub IsSplice : Text → Text → Text → Text → Type 0
IsSplice text old new r =
    (pre : Text) × (post : Text) × (text ≡ pre ++ (old ++ post)) × (r ≡ pre ++ (new ++ post))

replace_first-IsSplice :
    (old new text : Text) (n : ℕ)
    → count_from old 0 text ≡ suc n
    → IsSplice text old new (replace_first old new text)
unfolding count_from replace_first
replace_first-IsSplice old new [] n h = ground (arith, h)
replace_first-IsSplice old new (c ∷ s) n h = elim (Bool-cases (starts_with (c ∷ s) old)) [
  | inl here ↦ ([], drop (length old) (c ∷ s), starts_with-parts (c ∷ s) old here, rw here refl)
  | inr later ↦
      let rest : IsSplice s old new (replace_first old new s) =
        replace_first-IsSplice old new s n (ground (arith, h, later)) in
      (c ∷ rest.0, rest.1, ap (λ t. c ∷ t) rest.2, rw later (ap (λ t. c ∷ t) rest.3))
]

edited_text : {x y : Text} → edited x ≡ edited y → x ≡ y
edited_text {x} {y} h = ap (λ o. elim o [ refused e ↦ x | edited z ↦ z ]) h

replace_text_once :
    (text old new r : Text) (n : ℕ)
    → (if n == 0
        then refused not_found
        else if ltb 1 n
        then refused (many n)
        else edited (replace_first old new text))
      ≡ edited r
    → (n ≡ 1) × (replace_first old new text ≡ r)
replace_text_once text old new r zero h = ground (arith, h)
replace_text_once text old new r (suc zero) h = (refl, edited_text h)
replace_text_once text old new r (suc (suc n)) h = ground (arith, h)

-- Where `replace` succeeds with an old text, the new text stands in the result in the place of one
-- occurrence of the old text, and everything before and behind it is as it was.
pub replace_text-IsSplice :
    (text old new r : Text) → replace_text text old new ≡ edited r → IsSplice text old new r
unfolding replace_text count
replace_text-IsSplice text old new r h =
    let once : (count_from old 0 text ≡ 1) × (replace_first old new text ≡ r) =
      replace_text_once text old new r (count_from old 0 text) h in
    subst (IsSplice text old new) once.1 (replace_first-IsSplice old new text 0 once.0)
