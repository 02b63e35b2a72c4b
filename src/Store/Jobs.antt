-- ===== src/Store/Jobs.antt =====
-- The table `jobs` (runtime_state.py).
use noah_code.Prelude.{
  ℕ, Bool, true, ◌&&◌, ◌||◌, Option, none, some, List, [], ◌∷◌, ◌++◌, map, ltb, if◌then◌else◌, keep,
}
use noah_code.Python.Text.{Text, text_eq, codes}
use noah_code.Store.Events.{EventLog, number, text, event}
use noah_code.Store.Table.{find_row, update_rows}

pub record Job : Type 0 where
  pub job_id : Text
  pub name : Text
  pub command : Text
  pub pid : ℕ
  pub pgid : ℕ
  pub process_token : Text
  pub state : Text
  pub started_at : ℕ
  pub finished_at : Option ℕ
  pub returncode : Option ℕ
  pub log_path : Text
  pub timeout_seconds : ℕ

pub record Jobs : Type 0 where
  pub rows : List Job
  pub log : EventLog

abbrev pub job_id_of : Job → Text
job_id_of r = r.job_id

-- `{"running", "stopping"}`
unfoldable pub is_live : Text → Bool
unfolding text_eq
is_live state = text_eq state (codes "running") || text_eq state (codes "stopping")

-- The process group, the process token and the time are arguments.
unfoldable pub register_job : Jobs → Text → Text → Text → ℕ → ℕ → Text → ℕ → Text → ℕ → Jobs
register_job s job_id name command pid pgid token timeout_seconds log_path now =
    let row : Job = record {
      job_id = job_id;
      name = name;
      command = command;
      pid = pid;
      pgid = pgid;
      process_token = token;
      state = codes "running";
      started_at = now;
      finished_at = none;
      returncode = none;
      log_path = log_path;
      timeout_seconds = timeout_seconds;
    } in
    record {
      rows = s.rows ++ row ∷ [];
      log =
          event s.log (codes "job.started")
            ((codes "job_id", text job_id) ∷ (codes "pid", number pid) ∷ []);
    }

abbrev pub moved_job : Text → Option ℕ → ℕ → Job → Job
unfolding is_live
moved_job state returncode now r = record r {
  state = state;
  returncode = returncode;
  finished_at = if is_live state then none else some now;
}

unfoldable pub update_job : Jobs → Text → Text → Option ℕ → ℕ → Jobs
unfolding moved_job
update_job s job_id state returncode now = record {
  rows = update_rows job_id_of job_id (λ r. true) (moved_job state returncode now) s.rows;
  log =
      event s.log (codes "job.transition")
        ((codes "job_id", text job_id) ∷ (codes "state", text state) ∷ []);
}

unfoldable pub job : Jobs → Text → Option Job
job s job_id = find_row job_id_of job_id s.rows

-- `_process_matches` is an argument.
module _ (process_matches : ℕ → Text → Bool) where
  abbrev orphan_state : Job → Text
  orphan_state r =
      if ltb 0 r.pid && process_matches r.pid r.process_token
      then codes "orphan_cleaned"
      else codes "lost"

  unfoldable pub close_jobs : Jobs → ℕ → List Job → Jobs
  unfolding update_job
  close_jobs s now [] = s
  close_jobs s now (r ∷ l) = close_jobs (update_job s r.job_id (orphan_state r) none now) now l

  -- The jobs, and the ids of those that were live. The signals to their processes are not modelled.
  unfoldable pub recover_orphan_jobs : Jobs → ℕ → Jobs × List Text
  unfolding close_jobs is_live
  recover_orphan_jobs s now =
      let l : List Job = keep (λ r. is_live r.state) s.rows in (close_jobs s now l, map job_id_of l)
