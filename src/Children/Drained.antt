-- ===== src/Children/Drained.antt =====
-- Behind `close` no child session has a job (tools/task_tools.py).
use noah_code.Prelude.{
  ℕ, Bool, true, false, List, [], ◌∷◌, ◌≡◌, refl, ap, sym, ◌∙◌, arith, any, All, Bool-cases, inl,
  inr, keep, ◌&&◌, subst, not,
}
use noah_code.Python.Text.{Text, text_eq, member}
use noah_code.Permissions.Types.{Mode}
use noah_code.Teams.{AgentSpec}
use noah_code.Children.{
  ChildRecord, ChildSessions, is_active, load_children, live_jobs, start_child, follow_up, Ending,
  job_begins, job_ends, cancel_child, close_children, get_item, not,
}
use noah_code.Children.Tracked.{
  IsTracked, tracked, start_child-IsTracked, follow_up-IsTracked, job_begins-IsTracked,
  job_ends-IsTracked,
}
use noah_code.Python.Dict.{get_item}
use noah_code.Children.Foreground.{run_continues, run_ends, run_begins}
use noah_code.Children.Awaited.{run_begins-IsTracked, run_continues-IsTracked, run_ends-IsTracked}
use noah_code.Children.Closed.{
  cancel_found-IsTracked, IsClosed, close_children-IsTracked, no_job, run_continues-IsClosed,
  load_children-IsTracked, job_ends-idle, run_ends-IsClosed, awaited_rows, cancel_found-idle,
  close_children-idle,
}

-- A call, or a step of a job.
pub data ChildStep : Type 0 where
  start_step : Text → Text → Bool → Text → ChildStep
  follow_step : Text → Text → Bool → ChildStep
  begin_step : Text → ChildStep
  end_step : Text → Ending → ChildStep
  cancel_step : Text → ChildStep
  close_step : (Text → Ending) → ChildStep
  run_begins_step : Text → Text → ChildStep
  run_continues_step : Text → ChildStep
  run_ends_step : Text → Ending → ChildStep

-- A step of a run that a call waits for.
abbrev pub is_awaited : ChildStep → Bool
is_awaited (run_begins_step agent id) = true
is_awaited (run_continues_step id) = true
is_awaited (run_ends_step id ending) = true
is_awaited _ = false

module _ (agents : List AgentSpec) (approved : AgentSpec → Bool) (mode : Mode)
    (max_concurrent : ℕ) where
  unfoldable pub perform : ChildSessions → ChildStep → ChildSessions
  unfolding start_child follow_up job_begins job_ends cancel_child close_children run_begins
      run_continues run_ends
  perform s (start_step name prompt isolate id) =
      (start_child agents approved mode max_concurrent s name prompt isolate id).1
  perform s (follow_step id prompt background) =
      (follow_up agents approved mode max_concurrent s id prompt background).1
  perform s (begin_step id) = job_begins s id
  perform s (end_step id ending) = job_ends s id ending
  perform s (cancel_step id) = (cancel_child s id).1
  perform s (close_step endings) = close_children s endings
  perform s (run_begins_step agent id) = run_begins s agent id
  perform s (run_continues_step id) = run_continues s id
  perform s (run_ends_step id ending) = run_ends s id ending

  unfoldable pub perform_all : ChildSessions → List ChildStep → ChildSessions
  unfolding perform
  perform_all s [] = s
  perform_all s (c ∷ l) = perform_all (perform s c) l

  perform-IsTracked : (s : ChildSessions) (c : ChildStep) → IsTracked s → IsTracked (perform s c)
  unfolding perform cancel_child
  perform-IsTracked s (start_step name prompt isolate id) h =
      start_child-IsTracked agents approved mode max_concurrent s name prompt isolate id h
  perform-IsTracked s (follow_step id prompt background) h =
      follow_up-IsTracked agents approved mode max_concurrent s id prompt background h
  perform-IsTracked s (begin_step id) h = job_begins-IsTracked s id h
  perform-IsTracked s (end_step id ending) h = job_ends-IsTracked s id ending h
  perform-IsTracked s (cancel_step id) h =
      cancel_found-IsTracked s id (get_item text_eq id s.records) h
  perform-IsTracked s (close_step endings) h = close_children-IsTracked s endings h
  perform-IsTracked s (run_begins_step agent id) h = run_begins-IsTracked s agent id h
  perform-IsTracked s (run_continues_step id) h = run_continues-IsTracked s id h
  perform-IsTracked s (run_ends_step id ending) h = run_ends-IsTracked s id ending h

  perform_all-IsTracked :
      (s : ChildSessions) (l : List ChildStep) → IsTracked s → IsTracked (perform_all s l)
  unfolding perform_all
  perform_all-IsTracked s [] h = h
  perform_all-IsTracked s (c ∷ l) h =
      perform_all-IsTracked (perform s c) l (perform-IsTracked s c h)

  -- Where the runner is closed and there are no jobs, nothing happens but in runs that a call waits for.
  perform-closed :
      (s : ChildSessions) (c : ChildStep) → IsClosed s → is_awaited c ≡ false → perform s c ≡ s
  unfolding perform start_child follow_up job_begins job_ends cancel_child close_children
  perform-closed s (start_step name prompt isolate id) (h, e) f = rw h refl
  perform-closed s (follow_step id prompt background) (h, e) f = rw h refl
  perform-closed s (begin_step id) (h, e) f = rw (no_job s.jobs id e) refl
  perform-closed s (end_step id ending) (h, e) f = job_ends-idle s id ending e
  perform-closed s (cancel_step id) (h, e) f =
      cancel_found-idle s id (get_item text_eq id s.records) e
  perform-closed s (close_step endings) (h, e) f = close_children-idle s endings h e
  perform-closed s (run_begins_step agent id) h f = absurd (ground (arith, f))
  perform-closed s (run_continues_step id) h f = absurd (ground (arith, f))
  perform-closed s (run_ends_step id ending) h f = absurd (ground (arith, f))

  awaited-IsClosed :
      (s : ChildSessions) (c : ChildStep)
      → IsClosed s
      → is_awaited c ≡ true
      → IsClosed (perform s c)
  unfolding perform run_begins
  awaited-IsClosed s (run_begins_step agent id) h f = h
  awaited-IsClosed s (run_continues_step id) h f = run_continues-IsClosed s id h
  awaited-IsClosed s (run_ends_step id ending) h f = run_ends-IsClosed s id ending h
  awaited-IsClosed s (start_step name prompt isolate id) h f = absurd (ground (arith, f))
  awaited-IsClosed s (follow_step id prompt background) h f = absurd (ground (arith, f))
  awaited-IsClosed s (begin_step id) h f = absurd (ground (arith, f))
  awaited-IsClosed s (end_step id ending) h f = absurd (ground (arith, f))
  awaited-IsClosed s (cancel_step id) h f = absurd (ground (arith, f))
  awaited-IsClosed s (close_step endings) h f = absurd (ground (arith, f))

  perform_all-IsClosed :
      (s : ChildSessions) (l : List ChildStep)
      → IsClosed s
      → IsClosed (perform_all s l) × (perform_all s l ≡ perform_all s (keep is_awaited l))
  unfolding perform_all
  perform_all-IsClosed s [] h = (h, refl)
  perform_all-IsClosed s (c ∷ l) h = elim (Bool-cases (is_awaited c)) [
    | inl awaited ↦
        rw (awaited, keep) (perform_all-IsClosed (perform s c) l (awaited-IsClosed s c h awaited))
    | inr of_job ↦
        rw (of_job, keep)
          (subst
            (λ t.
              IsClosed (perform_all t l) × (perform_all t l ≡ perform_all s (keep is_awaited l)))
            (sym (perform-closed s c h of_job)) (perform_all-IsClosed s l h))
  ]

  -- Whatever records were stored, whatever calls and steps of jobs and of runs that a call waits for came
  -- since they were loaded, however the live jobs end in close, and whatever calls and steps come behind
  -- it: a child session that is queued or running then is one whose run a call of run, run_many,
  -- collaborate or team has under way, no job is live, and it is all as if of the later calls and
  -- steps only those of such runs had come.
  pub close_children-drained :
      (records : List (Text × ChildRecord)) (has_runtime : Bool) (steps later : List ChildStep)
      (endings : Text → Ending)
      → let s : ChildSessions =
          close_children (perform_all (load_children records has_runtime) steps) endings in
        let s' : ChildSessions = perform_all s later in
        (any (λ r. is_active r.1.state && not (member r.0 s'.runs)) s'.records ≡ false)
        × (live_jobs s'.jobs ≡ 0)
        × (s' ≡ perform_all s (keep is_awaited later))
  close_children-drained records has_runtime steps later endings =
      let t : ChildSessions = perform_all (load_children records has_runtime) steps in
      let s : ChildSessions = close_children t endings in
      let tracked_then : IsTracked (perform_all s later) = perform_all-IsTracked s later (
        close_children-IsTracked t endings (
          perform_all-IsTracked (load_children records has_runtime) steps
            (load_children-IsTracked records has_runtime))) in
      let closed_then = perform_all-IsClosed s later (unfold close_children in (refl, refl)) in
      (
        awaited_rows (perform_all s later).runs (perform_all s later).records (
            subst
              (λ j.
                All (λ r. tracked (perform_all s later).runs j r ≡ true)
                  (perform_all s later).records)
              closed_then.0.1 tracked_then),
        ap live_jobs closed_then.0.1 ∙ unfold live_jobs in refl,
        closed_then.1,
      )
