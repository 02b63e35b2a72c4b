-- ===== src/Store/State.antt =====
-- The table `state` (runtime_state.py) and the checkpoints in it.
use noah_code.Prelude.{
  ℕ, suc, Option, none, some, List, [], ◌∷◌, ◌++◌, ◌≡◌, refl, ap, arith, if◌then◌else◌,
}
use noah_code.Python.Text.{Text, text_eq, codes, starts_with, lower, behind}
use noah_code.Python.Text.Laws.{text_eq_refl}

-- A JSON value: a number, or the text of another.
pub data Stored : Type 0 where
  whole_number : ℕ → Stored
  json : Text → Stored

abbrev pub Rows : Type 0
Rows = List (Text × Stored)

-- INSERT … ON CONFLICT(key) DO UPDATE
unfoldable pub set_state : Rows → Text → Stored → Rows
unfolding text_eq
set_state [] key value = (key, value) ∷ []
set_state ((k, v) ∷ l) key value =
    let rest : Rows = set_state l key value in
    if text_eq k key then (k, value) ∷ l else (k, v) ∷ rest

unfoldable pub get_state : Rows → Text → Option Stored
unfolding text_eq
get_state [] key = none
get_state ((k, v) ∷ l) key = if text_eq k key then some v else get_state l key

abbrev set_fields : Rows → List (Text × Stored) → Rows
unfolding set_state
set_fields rows [] = rows
set_fields rows ((k, v) ∷ l) = set_fields (set_state rows (codes "checkpoint:" ++ k) v) l

abbrev next_generation : Option Stored → ℕ
next_generation none = 1
next_generation (some (whole_number n)) = suc n
next_generation (some (json t)) = 1

abbrev pub generation_key : Text
generation_key = codes "checkpoint_generation"

-- `saved_at` is an argument. The rows, and the generation.
unfoldable pub save_checkpoint : Rows → List (Text × Stored) → Stored → Rows × ℕ
unfolding get_state set_state set_fields
save_checkpoint rows values saved_at =
    let generation : ℕ = next_generation (get_state rows generation_key) in
    let merged : Rows =
      set_state (set_state values (codes "generation") (whole_number generation)) (codes "saved_at")
        saved_at in
    (set_state (set_fields rows merged) generation_key (whole_number generation), generation)

abbrev without_prefix : Text → Text
unfolding behind
without_prefix key = elim (behind (codes "checkpoint:") key) [ none ↦ key | some rest ↦ rest ]

-- LIKE does not tell upper from lower case.
unfoldable pub load_checkpoint : Rows → List (Text × Stored)
unfolding starts_with lower without_prefix
load_checkpoint [] = []
load_checkpoint ((k, v) ∷ l) =
    let rest : List (Text × Stored) = load_checkpoint l in
    if starts_with (lower k) (codes "checkpoint:") then (without_prefix k, v) ∷ rest else rest

-- The value that was set is got back, and no other key changes.
pub get_state-set_state :
    (rows : Rows) (key : Text) (value : Stored)
    → get_state (set_state rows key value) key ≡ some value
unfolding get_state set_state
get_state-set_state [] key value = rw (text_eq_refl key) refl
get_state-set_state ((k, v) ∷ l) key value = ground (arith, get_state-set_state l key value)

-- Each checkpoint has the generation after the one before it.
pub save_checkpoint-generation :
    (rows : Rows) (values values' : List (Text × Stored)) (saved_at saved_at' : Stored)
    → (save_checkpoint (save_checkpoint rows values saved_at).0 values' saved_at').1
      ≡ suc (save_checkpoint rows values saved_at).1
unfolding save_checkpoint
save_checkpoint-generation rows values values' saved_at saved_at' =
    let generation : ℕ = next_generation (get_state rows generation_key) in
    let merged : Rows =
      set_state (set_state values (codes "generation") (whole_number generation)) (codes "saved_at")
        saved_at in
    ap next_generation
      (get_state-set_state (set_fields rows merged) generation_key (whole_number generation))
