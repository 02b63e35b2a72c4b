-- ===== src/Store/Interactions.antt =====
-- The table `interactions` (runtime_state.py): questions to the user and their answers.
use noah_code.Prelude.{
  ℕ, Bool, not, Option, none, some, List, [], ◌∷◌, ◌++◌, if◌then◌else◌, keep, null, length,
}
use noah_code.Python.Text.{Text, text_eq, codes}
use noah_code.Store.Table.{update_rows}

-- The states are texts: `resolve_interaction` takes any.
pub record Interaction : Type 0 where
  pub interaction_id : Text
  pub kind : Text
  pub request : Text
  pub state : Text
  pub result : Option Text

abbrev pub id_of : Interaction → Text
id_of r = r.interaction_id

abbrev pub pending : Text
pending = codes "pending"

abbrev pub interrupted : Text
interrupted = codes "interrupted"

unfoldable pub is_pending : Interaction → Bool
unfolding text_eq
is_pending r = text_eq r.state pending

-- INSERT OR REPLACE: a row with the same id goes. The uuid for an empty id is an argument.
unfoldable pub begin_interaction :
    List Interaction → Text → Text → Text → Text → List Interaction × Text
begin_interaction rows kind request interaction_id uuid =
    let selected : Text = if null interaction_id then uuid else interaction_id in
    let row : Interaction = record {
      interaction_id = selected;
      kind = kind;
      request = request;
      state = pending;
      result = none;
    } in
    (keep (λ r. not (text_eq r.interaction_id selected)) rows ++ row ∷ [], selected)

abbrev pub resolved : Text → Text → Interaction → Interaction
resolved state result r = record r { state = state; result = some result }

-- `result` is its JSON text.
unfoldable pub resolve_interaction : List Interaction → Text → Text → Text → List Interaction
unfolding is_pending
resolve_interaction rows interaction_id result state =
    update_rows id_of interaction_id is_pending (resolved state result) rows

abbrev pub interrupt : Interaction → Interaction
interrupt r = record r { state = interrupted }

unfoldable pub interrupt_pending : List Interaction → List Interaction
unfolding is_pending
interrupt_pending [] = []
interrupt_pending (r ∷ l) = (if is_pending r then interrupt r else r) ∷ interrupt_pending l

-- The rows, and `rowcount`.
unfoldable pub interrupt_pending_interactions : List Interaction → List Interaction × ℕ
unfolding interrupt_pending
interrupt_pending_interactions rows = (interrupt_pending rows, length (keep is_pending rows))
