-- ===== src/Store/Events.antt =====
-- The table `runtime_events` (runtime_state.py).
use noah_code.Prelude.{drop, ℕ, suc, ◌-◌, List, [], ◌∷◌, ◌++◌, length}
use noah_code.Python.Text.{Text}

-- A value of a payload, which the source writes as JSON.
pub data Value : Type 0 where
  number : ℕ → Value
  text : Text → Value
  texts : List Text → Value

pub record Event : Type 0 where
  pub sequence : ℕ
  pub kind : Text
  pub payload : List (Text × Value)

-- The rows in the order of `sequence`, and what AUTOINCREMENT gives next.
pub record EventLog : Type 0 where
  pub events : List Event
  pub next_sequence : ℕ
  pub max_events : ℕ

-- The insertion, and the deletion of the overflow with the lowest sequences.
unfoldable pub event : EventLog → Text → List (Text × Value) → EventLog
unfolding drop
event log kind payload =
    let row : Event = record { sequence = log.next_sequence; kind = kind; payload = payload } in
    let rows : List Event = log.events ++ row ∷ [] in
    record log {
      events = drop (length rows - log.max_events) rows;
      next_sequence = suc log.next_sequence;
    }
