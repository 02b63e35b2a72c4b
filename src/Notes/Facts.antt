-- ===== src/Notes/Facts.antt =====
-- What `parse_memory_facts` (project_notes.py) lets through.
use noah_code.Prelude.{
  ℕ, zero, suc, ◌≤◌, Bool, true, false, List, [], ◌∷◌, ◌≡◌, refl, arith, length, All, ◌||◌, ltb,
  null,
}
use noah_code.Python.Text.{Text, text_eq, lower, codes, contains}
use noah_code.Notes.{
  fact_of, has_secret, is_junk, facts_of, parse_memory_facts, split_lines, ltb, null, text_eq,
  lower, codes, contains,
}
use noah_code.Output.{split_lines}

-- A fact that may be kept: it has no marker of a secret and is short.
abbrev pub IsFact : Text → Type 0
IsFact text = (has_secret text ≡ false) × (1 ≤ length text) × (length text ≤ 200)

none_holds :
    (a b c d e : Bool) → (a || b || c || d || e) ≡ false → (a ≡ false) × (c ≡ false) × (e ≡ false)
none_holds a b c d e h = ground (arith, h)

short_enough : (n : ℕ) → ltb 200 n ≡ false → n ≤ 200
short_enough n h = ground (arith, h)

size_of_some : (text : Text) → null text ≡ false → 1 ≤ length text
size_of_some [] h = ground (arith, h)
size_of_some (c ∷ s) h = omega arith

is_junk-IsFact : (text : Text) → is_junk text ≡ false → IsFact text
unfolding is_junk
is_junk-IsFact text h =
    let parts : (null text ≡ false) × (ltb 200 (length text) ≡ false) × (has_secret text ≡ false) =
      none_holds (null text) (text_eq (lower text) (codes "empty")) (ltb 200 (length text))
        (contains text (codes "```")) (has_secret text) h in
    (parts.2, size_of_some text parts.0, short_enough (length text) parts.1)

facts_step :
    (b : Bool) (fact : Text) (room : ℕ) (junk good : List Text)
    → (b ≡ false → IsFact fact)
    → All IsFact junk × (length junk ≤ suc room)
    → All IsFact good × (length good ≤ room)
    → let l : List Text = elim b [ true ↦ junk | false ↦ fact ∷ good ] in
      All IsFact l × (length l ≤ suc room)
facts_step true fact room junk good is hj hg = hj
facts_step false fact room junk good is hj hg = ((is refl, hg.0), omega (arith, hg.1))

facts_of-IsFact :
    (room : ℕ) (l : List Text) → All IsFact (facts_of room l) × (length (facts_of room l) ≤ room)
unfolding facts_of
facts_of-IsFact zero [] = (tt, omega arith)
facts_of-IsFact (suc room) [] = (tt, omega arith)
facts_of-IsFact zero (line ∷ l) = (tt, omega arith)
facts_of-IsFact (suc room) (line ∷ l) =
    facts_step (is_junk (fact_of line)) (fact_of line) room (facts_of (suc room) l)
      (facts_of room l) (is_junk-IsFact (fact_of line)) (facts_of-IsFact (suc room) l)
      (facts_of-IsFact room l)

-- Of any text at most eight facts are taken, and each of them is not empty, has at most 200
-- characters and contains no marker of a secret in upper or lower case.
pub parse_memory_facts-IsFact :
    (raw : Text) → All IsFact (parse_memory_facts raw) × (length (parse_memory_facts raw) ≤ 8)
unfolding parse_memory_facts
parse_memory_facts-IsFact raw = facts_of-IsFact 8 (split_lines raw)
