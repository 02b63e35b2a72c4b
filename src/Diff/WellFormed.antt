-- ===== src/Diff/WellFormed.antt =====
-- `parse_unified_diff` (tools/diff_tools.py): the form of the file diffs that it gives.
use noah_code.Prelude.{
  Bool, true, false, ◌&&◌, ◌||◌, not, Option, none, some, List, [], ◌∷◌, ◌≡◌, refl, arith, null,
  All, All-append, if◌then◌else◌, subst,
}
use noah_code.Python.Text.{Text, text_eq, codes, strip, starts_with}
use noah_code.Diff.{Hunk, FileDiff}
use noah_code.Diff.Parse.{no_eol, hunk_header, strip_prefix, diff_lines}
use noah_code.Diff.Sections.{
  Parsed, failed, parsed, Reading, dev_null, is_body, opened, from_fourth, next_line, is_metadata,
  has_new_header, between_files, close, add_entry, leave, body_line, in_file, read_line, finished,
  read_lines, some_files, parse_unified_diff,
}

-- What is so of a result, where there is one.
abbrev Gives {ℓ κ} : {A : Type ℓ} → (A → Type κ) → Parsed A → Type κ
Gives P (failed e) = Unit
Gives P (parsed x) = P x

Gives-if {ℓ κ} :
    {A : Type ℓ} (P : A → Type κ) (t : Bool) (a b : Parsed A)
    → (t ≡ true → Gives P a)
    → (t ≡ false → Gives P b)
    → Gives P (if t then a else b)
Gives-if P true a b h k = h refl
Gives-if P false a b h k = k refl

Gives-then {ℓ κ μ ν} :
    {A : Type ℓ} {B : Type κ} (P : A → Type μ) (Q : B → Type ν) (a : Parsed A) (f : A → Parsed B)
    → Gives P a
    → ((x : A) → P x → Gives Q (f x))
    → Gives Q (elim a [ failed e ↦ failed e | parsed x ↦ f x ])
Gives-then P Q (failed e) f h k = tt
Gives-then P Q (parsed x) f h k = k x h

Gives-option {ℓ κ μ ν} :
    {A : Type ℓ} {B : Type κ} (P : B → Type μ) (Q : Option A → Type ν) (o : Option A)
    (f : A → Parsed B) (a : Parsed B)
    → Q o
    → ((x : A) → Q (some x) → Gives P (f x))
    → Gives P a
    → Gives P (elim o [ none ↦ a | some x ↦ f x ])
Gives-option P Q none f a q h k = k
Gives-option P Q (some x) f a q h k = h x q

-- Every entry has a line of a file behind the sign that it begins with.
abbrev pub IsHunk : Hunk → Type 0
IsHunk h = All (λ t. is_body t ≡ true) h.entries

-- A section that is read: it names a file.
abbrev IsOpen : FileDiff → Type 0
IsOpen f = (null f.path ≡ false) × (text_eq f.path dev_null ≡ false) × All IsHunk f.hunks

-- A diff of one file: it names a file, its entries have signs, and only a file that is created or
-- deleted has no hunk.
abbrev pub IsFileDiff : FileDiff → Type 0
IsFileDiff f = IsOpen f × ((null f.hunks && not (f.is_create || f.is_delete)) ≡ false)

abbrev IsOpenOption : Option FileDiff → Type 0
IsOpenOption none = Unit {0}
IsOpenOption (some f) = IsOpen f

abbrev IsReading : Reading → Type 0
IsReading s = All IsFileDiff s.files × IsOpenOption s.current

opened-IsOpen : (a b : Text) → Gives IsOpen (opened a b)
opened-IsOpen a b =
    let target : Text = if not (text_eq b dev_null) then b else a in
    Gives-if IsOpen (null target || text_eq target dev_null) _ _ (λ e. tt)
      (λ e. (ground (arith, e), ground (arith, e), tt))

between_files-IsReading :
    (files : List FileDiff) (line : Text) (rest : List Text)
    → All IsFileDiff files
    → Gives IsReading (between_files files line rest)
unfolding between_files
between_files-IsReading files line rest h =
    Gives-if IsReading (null (strip line) || is_metadata line) _ _ (λ e. (h, tt))
      (λ e.
        Gives-if IsReading (not (starts_with line (codes "--- "))) _ _ (λ k. tt)
          (λ k.
            Gives-if IsReading (not (has_new_header rest)) _ _ (λ r. tt)
              (λ r.
                Gives-then IsOpen IsReading
                  (opened (strip_prefix (from_fourth line))
                    (strip_prefix (from_fourth (next_line rest))))
                  _
                  (opened-IsOpen (strip_prefix (from_fourth line))
                    (strip_prefix (from_fourth (next_line rest))))
                  (λ f o. (h, o)))))

close-IsFileDiff :
    (files : List FileDiff) (f : FileDiff)
    → All IsFileDiff files
    → IsOpen f
    → Gives (All IsFileDiff) (close files f)
unfolding close
close-IsFileDiff files f h o =
    Gives-if (All IsFileDiff) (null f.hunks && not (f.is_create || f.is_delete)) _ _ (λ e. tt)
      (λ e. All-append IsFileDiff files (f ∷ []) h ((o, e), tt))

leave-IsReading :
    (files : List FileDiff) (f : FileDiff) (line : Text) (rest : List Text)
    → All IsFileDiff files
    → IsOpen f
    → Gives IsReading (leave files f line rest)
unfolding leave
leave-IsReading files f line rest h o =
    Gives-then (All IsFileDiff) IsReading (close files f) _ (close-IsFileDiff files f h o)
      (λ files' k. between_files-IsReading files' line rest k)

add_entry-IsHunk :
    (entry : Text) (l : List Hunk)
    → is_body entry ≡ true
    → All IsHunk l
    → All IsHunk (add_entry entry l)
add_entry-IsHunk entry [] e h = tt
add_entry-IsHunk entry (x ∷ []) e h =
    (All-append (λ t. is_body t ≡ true) x.entries (entry ∷ []) h.0 (e, tt), tt)
add_entry-IsHunk entry (x ∷ y ∷ l) e h = (h.0, add_entry-IsHunk entry (y ∷ l) e h.1)

body_line-IsReading :
    (files : List FileDiff) (f : FileDiff) (entry line : Text) (rest : List Text)
    → All IsFileDiff files
    → IsOpen f
    → Gives IsReading (body_line files f entry line rest)
unfolding body_line
body_line-IsReading files f entry line rest h o =
    Gives-if IsReading (starts_with entry (codes "--- ") && has_new_header rest) _ _
      (λ e. leave-IsReading files f line rest h o)
      (λ e.
        Gives-if IsReading (not (null f.hunks) && is_body entry) _ _
          (λ k. (h, (o.0, o.1, add_entry-IsHunk entry f.hunks (ground (arith, k)) o.2)))
          (λ k. leave-IsReading files f line rest h o))

in_file-IsReading :
    (files : List FileDiff) (f : FileDiff) (line : Text) (rest : List Text)
    → All IsFileDiff files
    → IsOpen f
    → Gives IsReading (in_file files f line rest)
unfolding in_file
in_file-IsReading files f line rest h o =
    Gives-option IsReading (λ n. Unit {0}) (hunk_header line) _ _ tt
      (λ n q. (
        h,
        (
          o.0,
          o.1,
          All-append IsHunk f.hunks (record { old_start = n; entries = [] } ∷ []) o.2 (tt, tt),
        ),
      ))
      (Gives-if IsReading (starts_with line (codes "@@")) _ _ (λ e. tt)
        (λ e.
          Gives-if IsReading (starts_with line no_eol) _ _ (λ k. (h, (o.0, o.1, o.2)))
            (λ k.
              body_line-IsReading files f (if null line then codes " " else line) line rest h o)))

read_line-IsReading :
    (s : Reading) (line : Text) (rest : List Text)
    → IsReading s
    → Gives IsReading (read_line s line rest)
unfolding read_line
read_line-IsReading s line rest h =
    Gives-if IsReading s.is_header_next _ _ (λ e. h)
      (λ e.
        Gives-option IsReading IsOpenOption s.current _ _ h.1
          (λ f o. in_file-IsReading s.files f line rest h.0 o)
          (between_files-IsReading s.files line rest h.0))

read_lines-IsFileDiff :
    (s : Reading) (l : List Text) → IsReading s → Gives (All IsFileDiff) (read_lines s l)
unfolding read_lines finished
read_lines-IsFileDiff s [] h =
    Gives-option (All IsFileDiff) IsOpenOption s.current _ _ h.1
      (λ f o. close-IsFileDiff s.files f h.0 o) h.0
read_lines-IsFileDiff s (line ∷ rest) h =
    Gives-then IsReading (All IsFileDiff) (read_line s line rest) _
      (read_line-IsReading s line rest h) (λ s' k. read_lines-IsFileDiff s' rest k)

some_files-IsFileDiff :
    (r : Parsed (List FileDiff))
    → Gives (All IsFileDiff) r
    → Gives (λ l. (null l ≡ false) × All IsFileDiff l) (some_files r)
some_files-IsFileDiff (failed e) h = tt
some_files-IsFileDiff (parsed []) h = tt
some_files-IsFileDiff (parsed (f ∷ l)) h = (refl, h)

-- Every diff of a file that the parser gives names a file, each entry of its hunks begins with a space,
-- a plus or a minus, and it has a hunk unless the file is created or deleted. There is at least one.
pub parse_unified_diff-IsFileDiff :
    (diff_text : Text) (files : List FileDiff)
    → parse_unified_diff diff_text ≡ parsed files
    → (null files ≡ false) × All IsFileDiff files
unfolding parse_unified_diff
parse_unified_diff-IsFileDiff diff_text files e =
    subst (Gives (λ l. (null l ≡ false) × All IsFileDiff l)) e (
      some_files-IsFileDiff
        (read_lines (record { files = []; current = none; is_header_next = false })
          (diff_lines diff_text))
        (read_lines-IsFileDiff (record { files = []; current = none; is_header_next = false })
          (diff_lines diff_text) (tt, tt)))
