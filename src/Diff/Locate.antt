-- ===== src/Diff/Locate.antt =====
-- `_locate` (tools/diff_tools.py).
use noah_code.Prelude.{
  drop, ℕ, zero, suc, ◌+◌, ◌-◌, min, Bool, true, false, ◌&&◌, Option, none, some, List, [], ◌∷◌,
  if◌then◌else◌, leb, take, length,
}
use noah_code.Python.Text.{Text, text_eq}

abbrev pub same_lines : List Text → List Text → Bool
same_lines [] [] = true
same_lines (s ∷ k) (t ∷ l) = text_eq s t && same_lines k l
same_lines _ _ = false

-- `body[probe : probe + span] == block`, where that is in the body
unfoldable pub fits : List Text → List Text → ℕ → Bool
unfolding text_eq drop
fits body block probe =
    leb (probe + length block) (length body)
    && same_lines (take (length block) (drop probe body)) block

-- The probe below the center, where it is not negative.
unfoldable pub fits_below : List Text → List Text → ℕ → ℕ → Bool
unfolding fits
fits_below body block center offset = leb offset center && fits body block (center - offset)

-- The loop over the offsets from one on, of which so many are left.
unfoldable pub search : List Text → List Text → ℕ → ℕ → ℕ → Option ℕ
unfolding fits fits_below
search body block center offset zero = none
search body block center offset (suc left) =
    let rest : Option ℕ = search body block center (suc offset) left in
    if fits body block (center + offset)
    then some (center + offset)
    else if fits_below body block center offset
    then some (center - offset)
    else rest

-- `hint` is not below zero; `none` is the error that the context does not match.
unfoldable pub locate : List Text → List Text → ℕ → Option ℕ
unfolding search
locate body [] hint = some (min hint (length body))
locate body (t ∷ block) hint =
    search body (t ∷ block) (min hint (length body - length (t ∷ block))) 0
      (length body + length (t ∷ block))
