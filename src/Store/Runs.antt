-- ===== src/Store/Runs.antt =====
-- The table `runs` (runtime_state.py).
use noah_code.Prelude.{
  ℕ, Bool, true, false, Option, none, some, List, [], ◌∷◌, ◌++◌, ltb, if◌then◌else◌,
}
use noah_code.Python.Text.{Text, codes}
use noah_code.Store.Events.{EventLog, text, event}
use noah_code.Store.Table.{find_row, update_rows}

pub data RunState : Type 0 where
  running waiting_process waiting_user retry_at recovering completed failed cancelled : RunState

abbrev pub run_state_text : RunState → Text
run_state_text running = codes "running"
run_state_text waiting_process = codes "waiting_process"
run_state_text waiting_user = codes "waiting_user"
run_state_text retry_at = codes "retry_at"
run_state_text recovering = codes "recovering"
run_state_text completed = codes "completed"
run_state_text failed = codes "failed"
run_state_text cancelled = codes "cancelled"

abbrev pub is_terminal : RunState → Bool
is_terminal completed = true
is_terminal failed = true
is_terminal cancelled = true
is_terminal _ = false

pub record RunRecord : Type 0 where
  pub run_id : Text
  pub state : RunState
  pub user_text : Text
  pub wake_kind : Text
  pub wake_ref : Text
  pub created_at : ℕ
  pub updated_at : ℕ
  pub error : Text

pub record Runs : Type 0 where
  pub rows : List RunRecord
  pub log : EventLog

abbrev pub run_id_of : RunRecord → Text
run_id_of r = r.run_id

-- The uuid and the time are arguments.
unfoldable pub begin_run : Runs → Text → Text → ℕ → Runs
begin_run s user_text run_id now =
    let row : RunRecord = record {
      run_id = run_id;
      state = running;
      user_text = user_text;
      wake_kind = [];
      wake_ref = [];
      created_at = now;
      updated_at = now;
      error = [];
    } in
    record {
      rows = s.rows ++ row ∷ [];
      log = event s.log (codes "run.started") ((codes "run_id", text run_id) ∷ []);
    }

abbrev moved_run : RunState → Text → Text → Text → ℕ → RunRecord → RunRecord
moved_run state wake_kind wake_ref error now r = record r {
  state = state;
  wake_kind = wake_kind;
  wake_ref = wake_ref;
  error = error;
  updated_at = now;
}

-- `none` is the error that the run is unknown.
unfoldable pub transition_run : Runs → Text → RunState → Text → Text → Text → ℕ → Option Runs
transition_run s run_id state wake_kind wake_ref error now =
    elim (find_row run_id_of run_id s.rows) [
      | none ↦ none
      | some r ↦ some (record {
        rows =
            update_rows run_id_of run_id (λ r. true) (moved_run state wake_kind wake_ref error now)
              s.rows;
        log = event s.log (codes "run.transition") (
            (codes "run_id", text run_id)
            ∷ (codes "state", text (run_state_text state))
            ∷ (codes "wake_kind", text wake_kind)
            ∷ (codes "wake_ref", text wake_ref)
            ∷ []);
      })
    ]

-- ORDER BY updated_at DESC LIMIT 1
abbrev newer : RunRecord → Option RunRecord → RunRecord
newer r none = r
newer r (some s) = if ltb r.updated_at s.updated_at then s else r

unfoldable pub latest_incomplete : List RunRecord → Option RunRecord
latest_incomplete [] = none
latest_incomplete (r ∷ l) =
    let rest : Option RunRecord = latest_incomplete l in
    if is_terminal r.state then rest else some (newer r rest)

unfoldable pub latest_incomplete_run : Runs → Option RunRecord
unfolding latest_incomplete
latest_incomplete_run s = latest_incomplete s.rows
