-- ===== src/Diff/Nearest.antt =====
-- What `_locate` (tools/diff_tools.py) finds.
use noah_code.Prelude.{
  drop, ℕ, zero, suc, ◌+◌, ◌-◌, ◌≤◌, ◌<◌, min, true, false, some, List, [], ◌∷◌, ◌==◌, ◌≡◌, refl,
  ap, ◌∙◌, arith, leb, take, length, Bool-cases, inl, inr, length-take_bound, length-drop,
}
use noah_code.Python.Text.{Text}
use noah_code.Python.Text.Laws.{text_eq_iff, text_eq_refl}
use noah_code.Diff.Locate.{same_lines, fits, fits_below, search, locate}

abbrev pub distance : ℕ → ℕ → ℕ
distance a b = (a - b) + (b - a)

-- Where the loop begins.
abbrev pub center_of : List Text → List Text → ℕ → ℕ
center_of body block hint = min hint (length body - length block)

module _ (body block : List Text) (center : ℕ) where
  -- A place that neither probe of an offset is at.
  beyond :
      (offset q : ℕ)
      → fits body block q ≡ true
      → offset ≤ distance center q
      → fits body block (center + offset) ≡ false
      → fits_below body block center offset ≡ false
      → suc offset ≤ distance center q
  unfolding fits_below
  beyond offset q found far above below = elim (Bool-cases (distance center q == offset)) [
    | inr differs ↦ ground (arith, far, differs)
    | inl same ↦ elim (Bool-cases (leb center q)) [
      | inl up ↦
          let e : q ≡ center + offset = ground (arith, same, up) in
          ground (arith, above, found, ap (fits body block) e)
      | inr down ↦
          let e : q ≡ center - offset = ground (arith, same, down) in
          ground (arith, below, same, down, found, ap (fits body block) e)
    ]
  ]

  search-nearest :
      (offset left q : ℕ)
      → fits body block q ≡ true
      → offset ≤ distance center q
      → distance center q < offset + left
      → (p : ℕ) × (search body block center offset left ≡ some p)
        × (fits body block p ≡ true)
        × (distance center p ≤ distance center q)
  unfolding search
  search-nearest offset zero q found far near =
      let absurd : ⊥ = omega (arith, far, near) in elim absurd [ ]
  search-nearest offset (suc left) q found far near =
      elim (Bool-cases (fits body block (center + offset))) [
        | inl above ↦ (center + offset, rw above refl, above, omega (arith, far))
        | inr above ↦ elim (Bool-cases (fits_below body block center offset)) [
          | inl below ↦ (
            center - offset,
            rw above (rw below refl),
            unfold fits_below in ground (arith, below),
            unfold fits_below in ground (arith, below, far),
          )
          | inr below ↦ rw above (
              rw below (
                search-nearest (suc offset) left q found (beyond offset q found far above below)
                  (omega (arith, near))))
        ]
      ]

-- The block stands in the body from the place on.
abbrev pub IsAt : List Text → List Text → ℕ → Type 0
IsAt body block q = take (length block) (drop q body) ≡ block

same_lines_sound : (k l : List Text) → same_lines k l ≡ true → k ≡ l
same_lines_sound [] [] h = refl
same_lines_sound [] (t ∷ l) h = ground (arith, h)
same_lines_sound (s ∷ k) [] h = ground (arith, h)
same_lines_sound (s ∷ k) (t ∷ l) h =
    let first : s ≡ t = (text_eq_iff s t).0 (ground (arith, h)) in
    ap (λ x. x ∷ k) first ∙ ap (λ m. t ∷ m) (same_lines_sound k l (ground (arith, h)))

same_lines_refl : (l : List Text) → same_lines l l ≡ true
same_lines_refl [] = refl
same_lines_refl (t ∷ l) = ground (arith, text_eq_refl t, same_lines_refl l)

pub fits-IsAt :
    (body block : List Text) (q : ℕ)
    → fits body block q ≡ true
    → IsAt body block q × (q + length block ≤ length body)
unfolding fits
fits-IsAt body block q h = (
  same_lines_sound (take (length block) (drop q body)) block (ground (arith, h)),
  ground (arith, h),
)

IsAt-bound :
    (body : List Text) (t : Text) (block : List Text) (q : ℕ)
    → IsAt body (t ∷ block) q
    → q + length (t ∷ block) ≤ length body
IsAt-bound body t block q h =
    omega
      (arith, ap length h, length-take_bound (length (t ∷ block)) (drop q body), length-drop q body)

pub IsAt-fits :
    (body : List Text) (t : Text) (block : List Text) (q : ℕ)
    → IsAt body (t ∷ block) q
    → fits body (t ∷ block) q ≡ true
unfolding fits
IsAt-fits body t block q h =
    let same : same_lines (take (length (t ∷ block)) (drop q body)) (t ∷ block) ≡ true =
      ap (λ k. same_lines k (t ∷ block)) h ∙ same_lines_refl (t ∷ block) in
    ground (arith, same, IsAt-bound body t block q h)

-- Where a block that is not empty stands somewhere in the body, `_locate` finds it, and at a place
-- that is at least as near to where it begins to look as any other.
pub locate-nearest :
    (body : List Text) (t : Text) (block : List Text) (hint q : ℕ)
    → IsAt body (t ∷ block) q
    → (p : ℕ) × (locate body (t ∷ block) hint ≡ some p)
      × IsAt body (t ∷ block) p
      × (distance (center_of body (t ∷ block) hint) p
          ≤ distance (center_of body (t ∷ block) hint) q)
unfolding locate
locate-nearest body t block hint q h =
    let found : (p : ℕ) × (search body (t ∷ block) (center_of body (t ∷ block) hint) 0
            (length body + length (t ∷ block))
          ≡ some p)
        × (fits body (t ∷ block) p ≡ true)
        × (distance (center_of body (t ∷ block) hint) p
            ≤ distance (center_of body (t ∷ block) hint) q) =
      search-nearest body (t ∷ block) (center_of body (t ∷ block) hint) 0
        (length body + length (t ∷ block)) q (IsAt-fits body t block q h) (omega arith)
        (omega (arith, IsAt-bound body t block q h)) in
    (found.0, found.1, (fits-IsAt body (t ∷ block) found.0 found.2).0, found.3)
