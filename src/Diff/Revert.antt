-- ===== src/Diff/Revert.antt =====
-- A hunk that stands where its header says, and the hunk that takes it back (tools/diff_tools.py).
use noah_code.Prelude.{
  drop, take-front, drop-front, length-append, ℕ, zero, suc, ◌+◌, ◌-◌, ◌<◌, min, true, some, List,
  [], ◌∷◌, ◌++◌, map, ◌==◌, ◌≡◌, refl, ap, sym, ◌∙◌, arith, if◌then◌else◌, take, length, drop-drop,
}
use noah_code.Python.Text.{Text}
use noah_code.Diff.{Hunk, bodies, before_lines, after_lines}
use noah_code.Diff.Locate.{fits, search, locate}
use noah_code.Diff.Nearest.{IsAt, IsAt-fits}
use noah_code.Diff.Apply.{splice, apply_hunk}

-- The hunk that puts back what this one removes, and removes what it adds.
abbrev turned : Text → Text
turned [] = []
turned (c ∷ t) = (if c == b'-' then b'+' else if c == b'+' then b'-' else c) ∷ t

abbrev pub turned_back : Hunk → Hunk
turned_back h = record h { entries = map turned h.entries }

bodies-turned :
    (l : List Text)
    → (bodies b'-' (map turned l) ≡ bodies b'+' l) × (bodies b'+' (map turned l) ≡ bodies b'-' l)
bodies-turned [] = (refl, refl)
bodies-turned ([] ∷ l) = bodies-turned l
bodies-turned ((c ∷ t) ∷ l) =
    (ground (arith, (bodies-turned l).0), ground (arith, (bodies-turned l).1))

search_first :
    (body block : List Text) (center left : ℕ)
    → fits body block center ≡ true
    → 0 < left
    → search body block center 0 left ≡ some center
unfolding search
search_first body block center zero h more = ground (arith, more)
search_first body block center (suc left) h more =
    let here : center + 0 ≡ center = omega arith in
    let first : fits body block (center + 0) ≡ true = ap (fits body block) here ∙ h in
    rw first (ap some here)

IsAt-parts : (pre block post : List Text) → IsAt (pre ++ (block ++ post)) block (length pre)
IsAt-parts pre block post =
    ap (take (length block)) (drop-front pre (block ++ post)) ∙ take-front block post

locate-parts :
    (pre block post : List Text)
    → locate (pre ++ (block ++ post)) block (length pre) ≡ some (length pre)
unfolding locate
locate-parts pre [] post =
    let size : length (pre ++ ([] ++ post)) ≡ length pre + length post = length-append pre post in
    let place : min (length pre) (length (pre ++ ([] ++ post))) ≡ length pre =
      omega (arith, size) in
    ap some place
locate-parts pre (t ∷ block) post =
    let body : List Text = pre ++ ((t ∷ block) ++ post) in
    let size : length body ≡ length pre + (length (t ∷ block) + length post) =
      length-append pre ((t ∷ block) ++ post)
      ∙ ap (λ n. length pre + n) (length-append (t ∷ block) post) in
    let center : min (length pre) (length body - length (t ∷ block)) ≡ length pre =
      omega (arith, size) in
    ap (λ c. search body (t ∷ block) c 0 (length body + length (t ∷ block))) center
    ∙ search_first body (t ∷ block) (length pre) (length body + length (t ∷ block))
        (IsAt-fits body t block (length pre) (IsAt-parts pre (t ∷ block) post)) (omega arith)

splice-parts :
    (pre block new post : List Text)
    → splice (pre ++ (block ++ post)) (length pre) (length block) new ≡ pre ++ (new ++ post)
unfolding splice
splice-parts pre block new post =
    ap (λ k. k ++ (new ++ drop (length pre + length block) (pre ++ (block ++ post))))
      (take-front pre (block ++ post))
    ∙ ap (λ k. pre ++ (new ++ k))
        (sym (
            drop-drop (length block) (length pre) (length pre + length block)
              (pre ++ (block ++ post)) refl)
          ∙ ap (drop (length block)) (drop-front pre (block ++ post))
          ∙ drop-front block post)

apply_hunk-parts :
    (h : Hunk) (pre post : List Text)
    → h.old_start - 1 ≡ length pre
    → apply_hunk (pre ++ (before_lines h ++ post)) h
      ≡ some (pre ++ (after_lines h ++ post), length pre + length (after_lines h))
unfolding apply_hunk
apply_hunk-parts h pre post at =
    rw (at, apply_hunk)
      (rw (locate-parts pre (before_lines h) post) (
        ap (λ k. some (k, length pre + length (after_lines h)))
          (splice-parts pre (before_lines h) (after_lines h) post)))

-- Where the lines that a hunk expects stand in the file at the line that its header names, applying
-- it puts the new lines in their place and changes no other line, and applying the hunk that is
-- turned back to the result gives the file from before.
pub apply_hunk-turned_back :
    (h : Hunk) (pre post : List Text)
    → h.old_start - 1 ≡ length pre
    → (apply_hunk (pre ++ (before_lines h ++ post)) h
        ≡ some (pre ++ (after_lines h ++ post), length pre + length (after_lines h)))
      × (apply_hunk (pre ++ (after_lines h ++ post)) (turned_back h)
          ≡ some (pre ++ (before_lines h ++ post), length pre + length (before_lines h)))
apply_hunk-turned_back h pre post at =
    let before : before_lines (turned_back h) ≡ after_lines h =
      unfold before_lines after_lines in (bodies-turned h.entries).0 in
    let after : after_lines (turned_back h) ≡ before_lines h =
      unfold before_lines after_lines in (bodies-turned h.entries).1 in
    (
      apply_hunk-parts h pre post at,
      ap (λ k. apply_hunk (pre ++ (k ++ post)) (turned_back h)) (sym before)
          ∙ apply_hunk-parts (turned_back h) pre post at
          ∙ ap (λ k. some (pre ++ (k ++ post), length pre + length k)) after,
    )
