-- ===== src/Patch/Whole.antt =====
-- The changes that `apply_unified_diff` makes of a diff, as `apply_patch` reads them
-- (tools/workspace_tools.py): whole files.
use noah_code.Prelude.{
  ℕ, zero, suc, ◌-◌, ◌≤◌, true, false, Option, none, some, List, [], ◌∷◌, ◌++◌, ◌≡◌, refl, ap, ◌∙◌,
  arith, drop, length, null, Bool-cases, inl, inr, subst, collect,
}
use mathlib.Core.List.{append-nil}
use noah_code.Python.Text.{Text, starts_with}
use noah_code.Python.Text.Laws.{text_eq_refl}
use noah_code.Edits.{count, count_from, replace_first}
use noah_code.Diff.{FileDiff, DiffChange, update, no_match, delete, already_exists, after_lines}
use noah_code.Diff.Sections.{Parsed, failed, parsed}
use noah_code.Diff.Apply.{
  materialize_change, created, updated, changed_file, apply_hunks, split_body, last_first,
}
use noah_code.Files.{Bytes, File}
use noah_code.Patch.{
  ok, after_of, already_exists, PatchInputs, prepare, read_before, validate_python_source, encoded,
  content_of, mode_of,
}

starts_with_refl : (s : Text) → starts_with s s ≡ true
unfolding starts_with
starts_with_refl [] = refl
starts_with_refl (c ∷ s) = ground (arith, starts_with_refl s)

count_from-skipped : (old : Text) (n : ℕ) (s : Text) → length s ≤ n → count_from old n s ≡ 0
unfolding count_from
count_from-skipped old n [] h = refl
count_from-skipped old zero (c ∷ s) h = ground (arith, h)
count_from-skipped old (suc n) (c ∷ s) h = count_from-skipped old n s (omega (arith, h))

count_from-first :
    (old : Text) (c : ℕ) (s : Text)
    → starts_with (c ∷ s) old ≡ true
    → count_from old 0 (c ∷ s) ≡ suc (count_from old (length old - 1) s)
unfolding count_from
count_from-first old c s h = rw (h, count_from) refl

-- A text that is not empty occurs once in itself.
count-whole : (c : ℕ) (s : Text) → count (c ∷ s) (c ∷ s) ≡ 1
unfolding count
count-whole c s =
    count_from-first (c ∷ s) c s (starts_with_refl (c ∷ s))
    ∙ ap suc (count_from-skipped (c ∷ s) (length (c ∷ s) - 1) s (omega arith))

drop-whole : (s : Text) → drop (length s) s ≡ []
unfolding drop
drop-whole [] = refl
drop-whole (c ∷ s) = drop-whole s

replace_first-whole : (c : ℕ) (s new : Text) → replace_first (c ∷ s) new (c ∷ s) ≡ new
unfolding replace_first
replace_first-whole c s new =
    rw (starts_with_refl (c ∷ s)) (ap (λ t. new ++ t) (drop-whole (c ∷ s)) ∙ append-nil new)

after_of-whole :
    (path : Text) (c : ℕ) (s new : Text)
    → after_of path (some (c ∷ s)) (some (c ∷ s)) (some new) ≡ ok (update, some new)
unfolding after_of
after_of-whole path c s new = rw (count-whole c s, replace_first-whole c s new) refl

-- The text of a file that a diff may update: there is none, or it is not empty.
abbrev pub HasText : Option Text → Type 0
HasText none = Unit {0}
HasText (some t) = null t ≡ false

abbrev IsAccepted : Text → Option Text → Parsed DiffChange → Type 0
IsAccepted path current (failed e) = Unit {0}
IsAccepted path current (parsed d) = after_of path current d.old d.new ≡ ok (d.operation, d.new)

created-IsAccepted :
    (path : Text) (f : FileDiff) (l : List Text) → IsAccepted path none (created f l)
unfolding created after_of
created-IsAccepted path f [] = tt
created-IsAccepted path f (t ∷ l) = refl

option-IsAccepted {ℓ} :
    {A : Type ℓ} (path : Text) (current : Option Text) (o : Option A) (g : A → DiffChange)
    → ((x : A) → IsAccepted path current (parsed (g x)))
    → IsAccepted path current (elim o [ none ↦ failed no_match | some x ↦ parsed (g x) ])
option-IsAccepted path current none g h = tt
option-IsAccepted path current (some x) g h = h x

updated-IsAccepted :
    (path : Text) (f : FileDiff) (c : ℕ) (s : Text)
    → IsAccepted path (some (c ∷ s)) (updated f (c ∷ s))
unfolding updated
updated-IsAccepted path f c s =
    option-IsAccepted path (some (c ∷ s)) (apply_hunks (split_body (c ∷ s)).0 (last_first f.hunks))
      _ (λ x. after_of-whole path c s _)

deleted-IsAccepted :
    (path : Text) (s : Text) → after_of path (some s) (some s) none ≡ ok (delete, none)
unfolding after_of
deleted-IsAccepted path s = rw (text_eq_refl s) refl

changed_file-IsAccepted :
    (path : Text) (f : FileDiff) (current : Option Text)
    → HasText current
    → IsAccepted path current (changed_file f current)
unfolding changed_file
changed_file-IsAccepted path f none h = tt
changed_file-IsAccepted path f (some []) h = ground (arith, h)
changed_file-IsAccepted path f (some (c ∷ s)) h = elim (Bool-cases f.is_delete) [
  | inl gone ↦ rw gone (deleted-IsAccepted path (c ∷ s))
  | inr stays ↦ rw stays (updated-IsAccepted path f c s)
]

created_at :
    (path : Text) (f : FileDiff) (current : Option Text)
    → IsAccepted path current (elim current [
      | some text ↦ failed already_exists
      | none ↦ created f (collect after_lines f.hunks)
    ])
created_at path f none = created-IsAccepted path f (collect after_lines f.hunks)
created_at path f (some t) = tt

materialize_change-after_of :
    (path : Text) (f : FileDiff) (current : Option Text) (d : DiffChange)
    → HasText current
    → materialize_change f current ≡ parsed d
    → after_of path current d.old d.new ≡ ok (d.operation, d.new)
unfolding materialize_change
materialize_change-after_of path f current d h e =
    subst (IsAccepted path current) e (elim (Bool-cases f.is_create) [
      | inl creates ↦ rw creates (created_at path f current)
      | inr changes ↦ rw changes (changed_file-IsAccepted path f current h)
    ])

-- What the diff of a file is turned into passes the checks of a patch on its target, as the same
-- operation with the same new text, where the file is there with the text that the diff was applied to
-- and the text is not empty, or where there was and is no file, and where the new text is no invalid
-- Python behind a name of a Python file.
pub materialize_change-IsAccepted :
    (inputs : PatchInputs) (limit : ℕ) (path resolved : Text) (f : FileDiff) (o : Option File)
    (current : Option Text) (d : DiffChange) (content : Option Bytes)
    → HasText current
    → read_before inputs limit path o ≡ ok current
    → materialize_change f current ≡ parsed d
    → validate_python_source inputs path resolved (encoded inputs d.new) ≡ ok content
    → prepare inputs limit (record { path = path; resolved = resolved; old = d.old; new = d.new }) o
      ≡ ok (record {
        path = path;
        resolved = resolved;
        before = current;
        before_bytes = content_of o;
        after = d.new;
        after_bytes = content;
        operation = d.operation;
        mode = mode_of o;
      })
unfolding prepare
materialize_change-IsAccepted inputs limit path resolved f o current d content h read e valid =
    rw (read, materialize_change-after_of path f current d h e, valid) refl
