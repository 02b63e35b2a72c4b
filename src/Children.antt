-- ===== src/Children.antt =====
-- The child sessions of `TaskTools` (tools/task_tools.py): agents in the background, and beside them the
-- records of agents that a call waits for.
pub mod Foreground
pub mod Tracked
pub mod Awaited
pub mod Closed
pub mod Drained
mod Tests
use noah_code.Prelude.{
  ℕ, suc, Bool, true, false, ◌&&◌, ◌||◌, not, Option, none, some, List, [], ◌∷◌, map, leb,
  if◌then◌else◌, null,
}
use noah_code.Python.Text.{Text, text_eq, strip}
use noah_code.Python.Dict.{get_item, set_item, update_item}
use noah_code.Permissions.Types.{Mode}
use noah_code.Teams.{
  AgentSpec, TeamError, Answer, refused, answer, resolve_agent, authorize_agent, is_plan,
}

pub data ChildState : Type 0 where
  queued running interrupted completed wants_answer broken cancelled : ChildState

pub record ChildRecord : Type 0 where
  pub id : Text
  pub agent : Text
  pub isolated : Bool
  pub state : ChildState

-- `_records`, `_jobs` with whether each is still live, `_closed`, whether there is a runtime store, and
-- the ids of the runs without a job that calls of `run`, `run_many`, `collaborate` and `team` have under
-- way.
pub record ChildSessions : Type 0 where
  pub records : List (Text × ChildRecord)
  pub jobs : List (Text × Bool)
  pub closed : Bool
  pub has_runtime : Bool
  pub runs : List Text

-- What a raised error says of.
pub data ChildError : Type 0 where
  runner_closed needs_isolation no_runtime limit_reached plan_worktree unknown_child is_running :
      ChildError
  of_task : TeamError → ChildError

abbrev pub is_active : ChildState → Bool
is_active queued = true
is_active running = true
is_active _ = false

abbrev pub as_interrupted : Text × ChildRecord → Text × ChildRecord
as_interrupted (k, r) = (k, if is_active r.state then record r { state = interrupted } else r)

-- `__init__`, on what the runtime store kept, which is nothing where there is none
unfoldable pub load_children : List (Text × ChildRecord) → Bool → ChildSessions
load_children records has_runtime = record {
  records = map as_interrupted records;
  jobs = [];
  closed = false;
  has_runtime = has_runtime;
  runs = [];
}

abbrev pub or_false : Option Bool → Bool
or_false none = false
or_false (some b) = b

-- There is a job, and it is not done.
unfoldable pub has_job : List (Text × Bool) → Text → Bool
unfolding text_eq
has_job jobs id = or_false (get_item text_eq id jobs)

unfoldable pub live_jobs : List (Text × Bool) → ℕ
live_jobs [] = 0
live_jobs ((k, b) ∷ l) = let rest : ℕ = live_jobs l in if b then suc rest else rest

abbrev pub with_state : ChildState → ChildRecord → ChildRecord
with_state state r = record r { state = state }

-- `_launch`
unfoldable pub launch : ChildSessions → Text → ChildSessions
unfolding text_eq
launch s id = record s { jobs = set_item text_eq id true s.jobs }

abbrev pub after_answer :
    ChildSessions
    → Answer AgentSpec
    → (AgentSpec → Option ChildError × ChildSessions)
    → Option ChildError × ChildSessions
after_answer s (refused e) f = (some (of_task e), s)
after_answer s (answer spec) f = f spec

-- The id is new; that a worktree cannot be made and the hooks are left out.
module _ (agents : List AgentSpec) (approved : AgentSpec → Bool) (mode : Mode)
    (max_concurrent : ℕ) where
  unfoldable pub start_as :
      ChildSessions → AgentSpec → Bool → Text → Option ChildError × ChildSessions
  unfolding launch live_jobs
  start_as s spec isolate id =
      let child : ChildRecord = record {
        id = id;
        agent = spec.name;
        isolated = isolate;
        state = queued;
      } in
      if not spec.readonly && not isolate
      then (some needs_isolation, s)
      else if not s.has_runtime
      then (some no_runtime, s)
      else if leb max_concurrent (live_jobs s.jobs)
      then (some limit_reached, s)
      else if isolate && is_plan mode
      then (some plan_worktree, s)
      else (none, launch (record s { records = set_item text_eq id child s.records }) id)

  -- `_resolve` and `_authorize`, and then the rest of the call.
  unfoldable pub on_agent :
      ChildSessions
      → Text
      → Text
      → (AgentSpec → Option ChildError × ChildSessions)
      → Option ChildError × ChildSessions
  unfolding resolve_agent authorize_agent strip
  on_agent s name prompt f =
      after_answer s (resolve_agent agents name)
        (λ spec. after_answer s (authorize_agent approved mode spec (strip prompt)) f)

  unfoldable pub start_child :
      ChildSessions → Text → Text → Bool → Text → Option ChildError × ChildSessions
  unfolding on_agent start_as
  start_child s name prompt isolate id =
      if s.closed
      then (some runner_closed, s)
      else on_agent s name prompt (λ spec. start_as s spec isolate id)

  unfoldable pub continue_as :
      ChildSessions → ChildRecord → Text → Bool → AgentSpec → Option ChildError × ChildSessions
  unfolding launch live_jobs text_eq
  continue_as s child id background spec =
      if background && not spec.readonly && not child.isolated
      then (some needs_isolation, s)
      else if background && leb max_concurrent (live_jobs s.jobs)
      then (some limit_reached, s)
      else (
        none,
        launch (record s { records = update_item text_eq id (with_state queued) s.records }) id,
      )

  unfoldable pub continued :
      ChildSessions → Text → Text → Bool → Option ChildRecord → Option ChildError × ChildSessions
  unfolding continue_as on_agent has_job
  continued s id prompt background none = (some unknown_child, s)
  continued s id prompt background (some child) =
      if has_job s.jobs id
      then (some is_running, s)
      else on_agent s child.agent prompt (continue_as s child id background)

  -- The wait for the result of a child that is not in the background is left out.
  unfoldable pub follow_up : ChildSessions → Text → Text → Bool → Option ChildError × ChildSessions
  unfolding continued text_eq
  follow_up s id prompt background =
      if s.closed
      then (some runner_closed, s)
      else continued s id prompt background (get_item text_eq id s.records)

-- How a job ends.
pub data Ending : Type 0 where
  with_result with_question with_error by_cancel : Ending

abbrev pub state_behind : Ending → ChildState
state_behind with_result = completed
state_behind with_question = wants_answer
state_behind with_error = broken
state_behind by_cancel = cancelled

-- `_run_activity`, where a live job has a slot
unfoldable pub job_begins : ChildSessions → Text → ChildSessions
unfolding has_job text_eq
job_begins s id =
    if has_job s.jobs id
    then record s { records = update_item text_eq id (with_state running) s.records }
    else s

-- The end of `_execute_result` in a live job.
unfoldable pub job_ends : ChildSessions → Text → Ending → ChildSessions
unfolding has_job text_eq
job_ends s id ending =
    if has_job s.jobs id
    then record s {
      records = update_item text_eq id (with_state (state_behind ending)) s.records;
      jobs = set_item text_eq id false s.jobs;
    }
    else s

unfoldable pub cancel_found :
    ChildSessions → Text → Option ChildRecord → Option ChildError × ChildSessions
unfolding job_ends
cancel_found s id none = (some unknown_child, s)
cancel_found s id (some child) = (none, job_ends s id by_cancel)

unfoldable pub cancel_child : ChildSessions → Text → Option ChildError × ChildSessions
unfolding cancel_found text_eq
cancel_child s id = cancel_found s id (get_item text_eq id s.records)

-- A job that is live comes to its end, which a `cancel` that reaches the agent late need not make
-- `by_cancel`; any other record stays.
unfoldable pub ended_with :
    (Text → Ending) → List (Text × Bool) → Text × ChildRecord → Text × ChildRecord
unfolding has_job
ended_with endings jobs (k, r) =
    (k, if has_job jobs k then with_state (state_behind (endings k)) r else r)

-- `close`: every job that is live is cancelled, and ends as `endings` says of its id.
unfoldable pub close_children : ChildSessions → (Text → Ending) → ChildSessions
unfolding ended_with
close_children s endings = record s {
  records = map (ended_with endings s.jobs) s.records;
  jobs = [];
  closed = true;
}
