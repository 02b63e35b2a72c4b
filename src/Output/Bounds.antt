-- ===== src/Output/Bounds.antt =====
-- The size of what `bound` shows, and the output that it keeps (tool_output.py).
use noah_code.Prelude.{
  length-drop, length-append, length-take, ℕ, ◌+◌, ◌-◌, ◌≤◌, max, true, false, ◌&&◌, Option, none,
  some, List, [], ◌∷◌, ◌++◌, ◌≡◌, refl, ap, sym, ◌∙◌, arith, leb, take, length, Bool-cases, inl,
  inr, collect, subst, ltb,
}
use noah_code.Python.Text.{Text, text_eq}
use noah_code.Python.Text.Laws.{text_eq_iff, text_eq_refl}
use noah_code.Files.{Bytes}
use noah_code.Output.{
  BoundedOutput, OutputStore, Stored, refused, kept, split_lines, find_output, store_found, store,
  head_share, tail_share, from_end, note_of, rendered, shown, bound, line_budget, ltb, used,
  in_full,
}

shares : (n : ℕ) → 2 ≤ n → head_share n + tail_share n ≤ n
shares n h = omega (arith, h)

length-from_end : (n : ℕ) (l : Text) → length (from_end n l) ≤ n
unfolding from_end
length-from_end n l = omega (arith, length-drop (length l - n) l)

-- A head, a note and a tail that share what the note leaves.
length_parts :
    (head note tail : Text) (max_chars : ℕ)
    → let available : ℕ = max (max_chars - length note) 2 in
      length (take (head_share available) head ++ note ++ from_end (tail_share available) tail)
      ≤ max max_chars (length note + 2)
length_parts head note tail max_chars =
    let available : ℕ = max (max_chars - length note) 2 in
    let front : Text = take (head_share available) head in
    let back : Text = from_end (tail_share available) tail in
    let size : length (front ++ note ++ back) ≡ length front + length note + length back =
      length-append (front ++ note) back ∙ ap (λ n. n + length back) (length-append front note) in
    let front_size : length front ≤ head_share available =
      length-take (head_share available) head in
    let back_size : length back ≤ tail_share available =
      length-from_end (tail_share available) tail in
    let total : head_share available + tail_share available ≤ available =
      shares available (omega arith) in
    omega (arith, size, front_size, back_size, total)

length-rendered :
    (lines : List Text) (id : Text) (max_chars max_lines : ℕ)
    → length (rendered lines id max_chars max_lines)
      ≤ max max_chars (length (note_of lines id max_lines) + 2)
unfolding rendered
length-rendered lines id max_chars max_lines =
    length_parts (collect (λ l. l) (take (head_share (line_budget max_lines)) lines))
      (note_of lines id max_lines)
      (collect (λ l. l) (from_end (tail_share (line_budget max_lines)) lines)) max_chars

abbrev pub note_size : List Text → ℕ → Option Text → ℕ
note_size lines max_lines none = 0
note_size lines max_lines (some id) = length (note_of lines id max_lines) + 2

-- An output that was not shown in full is kept under its id.
abbrev pub IsKept : (Text → Bytes) → OutputStore → Text → BoundedOutput → Type 0
IsKept encode s text o = elim o.output_id [
  | none ↦ o.text ≡ text
  | some id ↦ find_output s.files id ≡ some (encode text)
]

find_output-append :
    (files : List (Text × Bytes)) (id : Text) (content : Bytes)
    → find_output files id ≡ none
    → find_output (files ++ (id, content) ∷ []) id ≡ some content
unfolding find_output
find_output-append [] id content h = rw (text_eq_refl id) refl
find_output-append ((k, c) ∷ l) id content h = elim (Bool-cases (text_eq k id)) [
  | inl same ↦ ground (arith, h, same)
  | inr other ↦ ground (arith, other, find_output-append l id content (ground (arith, h, other)))
]

in_full-IsKept :
    (encode : Text → Bytes) (s : OutputStore) (text : Text) (max_chars max_lines : ℕ)
    → (leb (length text) max_chars && leb (length (split_lines text)) max_lines) ≡ true
    → (length (in_full text).text
        ≤ max max_chars (note_size (split_lines text) max_lines (in_full text).output_id))
      × IsKept encode s text (in_full text)
unfolding in_full
in_full-IsKept encode s text max_chars max_lines short = (ground (arith, short), refl)

of_some {ℓ} : {A : Type ℓ} {x y : A} → some x ≡ some y → x ≡ y
of_some {A} {x} {y} h = ap (λ o. elim o [ none ↦ x | some z ↦ z ]) h

-- What was stored is found under its id.
abbrev IsFound : Bytes → Stored → Type 0
IsFound encoded (refused e) = Unit {0}
IsFound encoded (kept s id) = find_output s.files id ≡ some encoded

module _ (encode : Text → Bytes) (hash : Bytes → Text) where
  store_found-IsFound :
      (s : OutputStore) (id : Text) (encoded : Bytes) (o : Option Bytes)
      → find_output s.files id ≡ o
      → IsFound encoded (store_found encode hash s id encoded o)
  unfolding store_found
  store_found-IsFound s id encoded (some content) h = elim (Bool-cases (text_eq content encoded)) [
    | inl same ↦ rw same (h ∙ ap some ((text_eq_iff content encoded).0 same))
    | inr other ↦ rw other tt
  ]
  store_found-IsFound s id encoded none h =
      elim (Bool-cases (ltb s.max_total_bytes (used s.files + length encoded))) [
        | inl full ↦ rw full tt
        | inr room ↦ rw room (find_output-append s.files id encoded h)
      ]

  shown-IsKept :
      (s' : OutputStore) (text : Text) (lines : List Text) (max_chars max_lines : ℕ) (r : Stored)
      (o : BoundedOutput)
      → IsFound (encode text) r
      → shown encode hash text lines max_chars max_lines r ≡ some (s', o)
      → (length o.text ≤ max max_chars (note_size lines max_lines o.output_id))
        × IsKept encode s' text o
  unfolding shown
  shown-IsKept s' text lines max_chars max_lines (refused e) o found h = ground (arith, h)
  shown-IsKept s' text lines max_chars max_lines (kept s id) o found h =
      subst
        (λ r.
          (length r.1.text ≤ max max_chars (note_size lines max_lines r.1.output_id))
          × IsKept encode r.0 text r.1)
        (of_some h) (length-rendered lines id max_chars max_lines, found)

  bound_short :
      (s : OutputStore) (text : Text) (max_chars max_lines : ℕ)
      → (leb (length text) max_chars && leb (length (split_lines text)) max_lines) ≡ true
      → bound encode hash s text max_chars max_lines ≡ some (s, in_full text)
  unfolding bound
  bound_short s text max_chars max_lines short = rw (short, bound) refl

  bound_long :
      (s : OutputStore) (text : Text) (max_chars max_lines : ℕ)
      → (leb (length text) max_chars && leb (length (split_lines text)) max_lines) ≡ false
      → bound encode hash s text max_chars max_lines
        ≡ shown encode hash text (split_lines text) max_chars max_lines (store encode hash s text)
  unfolding bound
  bound_long s text max_chars max_lines long = rw (long, bound) refl

  -- What `bound` shows has at most `max_chars` characters, or where the notice leaves less than two
  -- of them, two more than the notice. Unless it is the whole output, the output is kept in full
  -- under the id that is given with it.
  pub bound-IsKept :
      (s s' : OutputStore) (text : Text) (max_chars max_lines : ℕ) (o : BoundedOutput)
      → bound encode hash s text max_chars max_lines ≡ some (s', o)
      → (length o.text ≤ max max_chars (note_size (split_lines text) max_lines o.output_id))
        × IsKept encode s' text o
  unfolding store
  bound-IsKept s s' text max_chars max_lines o h =
      let found : IsFound (encode text) (store encode hash s text) =
        store_found-IsFound s (hash (encode text)) (encode text)
          (find_output s.files (hash (encode text))) refl in
      elim (Bool-cases (leb (length text) max_chars && leb (length (split_lines text)) max_lines)) [
        | inl short ↦
            subst
              (λ r.
                (length r.1.text
                  ≤ max max_chars (note_size (split_lines text) max_lines r.1.output_id))
                × IsKept encode r.0 text r.1)
              (of_some (sym (bound_short s text max_chars max_lines short) ∙ h))
              (in_full-IsKept encode s text max_chars max_lines short)
        | inr long ↦
            shown-IsKept s' text (split_lines text) max_chars max_lines (store encode hash s text) o
              found (sym (bound_long s text max_chars max_lines long) ∙ h)
      ]
