-- ===== src/Notes.antt =====
-- The memory of a project (project_notes.py): what is kept of a model's notes, and how the note
-- changes. The note is a text, which is empty where the file cannot be read.
pub mod Facts
mod Tests
use noah_code.Prelude.{
  drop, ℕ, suc, ◌-◌, Bool, true, false, ◌&&◌, ◌||◌, not, Option, none, some, List, [], ◌∷◌, ◌++◌,
  map, ◌==◌, ltb, leb, if◌then◌else◌, null, any, take, length, keep,
}
use noah_code.Python.Text.{
  Text, text_eq, codes, texts, contains, starts_with, ends_with, strip, strip_right, lower, join,
  member, after?,
}
use noah_code.Output.{split_lines}
use Prim.Native.Nat.{zero}

abbrev pub memory_max_items : ℕ
memory_max_items = 40

abbrev pub memory_max_chars : ℕ
memory_max_chars = 4000

abbrev pub secret_markers : List Text
secret_markers = texts ("api_key" ∷ "password" ∷ "secret" ∷ "token=" ∷ "BEGIN " ∷ [])

-- `s.lstrip("…")` of two characters
abbrev lstrip_of : ℕ → ℕ → Text → Text
lstrip_of a b [] = []
lstrip_of a b (c ∷ s) = elim ((c == a) || (c == b)) [ true ↦ lstrip_of a b s | false ↦ c ∷ s ]

-- `line.strip().lstrip("-*").strip()`
unfoldable pub fact_of : Text → Text
unfolding strip
fact_of line = strip (lstrip_of b'-' b'*' (strip line))

unfoldable pub has_secret : Text → Bool
unfolding contains lower
has_secret text = any (λ marker. contains (lower text) (lower marker)) secret_markers

-- A line that is no fact.
unfoldable pub is_junk : Text → Bool
unfolding text_eq contains lower has_secret
is_junk text =
    null text
    || text_eq (lower text) (codes "empty")
    || ltb 200 (length text)
    || contains text (codes "```")
    || has_secret text

-- The lines are cut after their ends, which `strip` removes. So many facts are still taken.
unfoldable pub facts_of : ℕ → List Text → List Text
unfolding fact_of is_junk
facts_of room [] = []
facts_of zero (line ∷ l) = []
facts_of (suc room) (line ∷ l) = elim (is_junk (fact_of line)) [
  | true ↦ facts_of (suc room) l
  | false ↦ fact_of line ∷ facts_of room l
]

unfoldable pub parse_memory_facts : Text → List Text
unfolding facts_of split_lines
parse_memory_facts raw = facts_of 8 (split_lines raw)

abbrev pub bullet : Text → Text
bullet item = codes "- " ++ item

unfoldable pub bullets : List Text → Text
unfolding join
bullets l = join (codes "\n") (map bullet l)

abbrev tag : Text
tag = codes "memory:"

abbrev tagged : List Text → List Text
unfolding fact_of starts_with lower strip after?
tagged [] = []
tagged (line ∷ l) =
    let rest : List Text = tagged l in
    if starts_with (lower (fact_of line)) tag
    then (elim (after? b':' (fact_of line)) [ none ↦ rest | some t ↦ strip t ∷ rest ])
    else rest

unfoldable pub parse_distilled_memories : Text → List Text
unfolding parse_memory_facts bullets tagged split_lines
parse_distilled_memories raw = parse_memory_facts (bullets (tagged (split_lines raw)))

-- `NoteStore.write`
unfoldable pub written_note : Text → Text
unfolding ends_with
written_note text = if null text || ends_with text (codes "\n") then text else text ++ codes "\n"

-- The items of a note.
unfoldable pub items_of : Text → List Text
unfolding split_lines strip
items_of note =
    map (λ line. strip (lstrip_of b'-' b' ' line))
      (keep (λ line. not (null (strip line))) (split_lines note))

-- The items, those that were seen in lower case, and those that are new.
unfoldable pub merge_facts : List Text → List Text → List Text → List Text → List Text × List Text
unfolding strip lower member
merge_facts existing seen added [] = (existing, added)
merge_facts existing seen added (fact ∷ l) =
    let cleaned : Text = strip fact in
    elim (null cleaned || member (lower cleaned) seen) [
      | true ↦ merge_facts existing seen added l
      | false ↦
          merge_facts (existing ++ cleaned ∷ []) (lower cleaned ∷ seen) (added ++ cleaned ∷ []) l
    ]

-- The text of a note within its maximum; 8230 is the ellipsis.
unfoldable pub cut_note : Text → Text
unfolding strip_right
cut_note text =
    if ltb memory_max_chars (length text)
    then strip_right (take (memory_max_chars - 1) text) ++ 8230 ∷ []
    else text

-- The note, and the new items.
unfoldable pub merge : Text → List Text → Text × List Text
unfolding items_of merge_facts lower cut_note bullets written_note drop
merge note facts =
    let items : List Text = items_of note in
    let (existing, added) = merge_facts items (map lower items) [] facts in
    let newest : List Text = drop (length existing - memory_max_items) existing in
    (if null newest then note else written_note (cut_note (bullets newest)), added)

-- The note, which is empty once it is cleared, and whether an item was dropped.
unfoldable pub forget : Text → Text → Text × Bool
unfolding strip lower items_of contains bullets written_note
forget note fact =
    let needle : Text = lower (strip fact) in
    let items : List Text = items_of note in
    let kept : List Text = keep (λ item. not (contains (lower item) needle)) items in
    if length kept == length items
    then (note, false)
    else (if null kept then [] else written_note (bullets kept), true)
