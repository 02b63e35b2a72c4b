-- ===== src/Children/Foreground.antt =====
-- `_execute_result` of `TaskTools` (tools/task_tools.py) in a call that waits for it: `run`, `run_many`,
-- `collaborate` and `team` write the records too, without a job and without asking whether the runner is
-- closed.
use noah_code.Prelude.{not, none, some, List, ◌∷◌, if◌then◌else◌, keep, false}
use noah_code.Python.Text.{Text, text_eq, member}
use noah_code.Python.Dict.{get_item, set_item, update_item}
use noah_code.Children.{
  ChildRecord, ChildSessions, queued, running, with_state, Ending, state_behind, false,
}

abbrev pub new_record : Text → Text → ChildRecord
new_record id agent = record { id = id; agent = agent; isolated = false; state = queued }

-- `setdefault`, and the state behind it
unfoldable pub queued_record : Text → Text → List (Text × ChildRecord) → List (Text × ChildRecord)
unfolding text_eq
queued_record id agent l = elim (get_item text_eq id l) [
  | none ↦ set_item text_eq id (new_record id agent) l
  | some r ↦ update_item text_eq id (with_state queued) l
]

-- The uuid of the run is an argument.
unfoldable pub run_begins : ChildSessions → Text → Text → ChildSessions
unfolding queued_record
run_begins s agent id = record s { records = queued_record id agent s.records; runs = id ∷ s.runs }

-- `_run_activity`, where a run that is under way has a slot
unfoldable pub run_continues : ChildSessions → Text → ChildSessions
unfolding text_eq member
run_continues s id =
    if member id s.runs
    then record s { records = update_item text_eq id (with_state running) s.records }
    else s

-- The end of `_execute_result`.
unfoldable pub run_ends : ChildSessions → Text → Ending → ChildSessions
unfolding text_eq member
run_ends s id ending =
    if member id s.runs
    then record s {
      records = update_item text_eq id (with_state (state_behind ending)) s.records;
      runs = keep (λ k. not (text_eq k id)) s.runs;
    }
    else s
