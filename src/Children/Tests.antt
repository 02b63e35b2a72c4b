-- ===== src/Children/Tests.antt =====
-- Two child sessions, one of a session before.
use noah_code.Prelude.{true, false, some, List, [], ◌∷◌, ◌≡◌, refl, any, ◌&&◌, map, not, keep}
use noah_code.Python.Text.{Text, codes, member}
use noah_code.Permissions.Types.{build, plan}
use noah_code.Teams.{AgentSpec}
use noah_code.Children.{
  ChildRecord, ChildSessions, running, interrupted, cancelled, limit_reached, is_active,
  load_children, live_jobs, start_child, close_children, by_cancel, with_result, map, completed,
  not,
}
use noah_code.Children.Drained.{
  ChildStep, start_step, begin_step, follow_step, perform_all, close_children-drained,
  run_begins_step, run_continues_step, is_awaited,
}

abbrev agents : List AgentSpec
agents = record { name = codes "explore"; mode = plan; readonly = true } ∷ []

abbrev old : ChildRecord
old = record { id = codes "a"; agent = codes "explore"; isolated = false; state = running }

abbrev stored : List (Text × ChildRecord)
stored = (codes "a", old) ∷ []

abbrev steps : List ChildStep
steps = start_step (codes "@Explore") (codes "look") false (codes "b") ∷ begin_step (codes "b") ∷ []

abbrev before_close : ChildSessions
before_close = perform_all agents (λ a. true) build 1 (load_children stored true) steps

is_full :
    (start_child agents
      (λ a. true)
      build
      1
      before_close
      (codes "explore")
      (codes "more")
      false
      (codes "c")).0
    ≡ some limit_reached
unfolding start_child perform_all load_children
is_full = refl

ends_both :
    (close_children before_close (λ k. by_cancel)).records
    ≡ (codes "a", record old { state = interrupted })
      ∷ (
        codes "b",
        record { id = codes "b"; agent = codes "explore"; isolated = false; state = cancelled },
      )
      ∷ []
unfolding close_children perform_all load_children
ends_both = refl

-- A job that had ended before the cancellation reached it keeps its end.
ends_late :
    (close_children before_close (λ k. with_result)).records
    ≡ (codes "a", record old { state = interrupted })
      ∷ (
        codes "b",
        record { id = codes "b"; agent = codes "explore"; isolated = false; state = completed },
      )
      ∷ []
unfolding close_children perform_all load_children
ends_late = refl

-- Behind close a follow-up comes too late, and a run of a call begins.
abbrev later_steps : List ChildStep
later_steps =
    follow_step (codes "b") (codes "go on") true
    ∷ run_begins_step (codes "explore") (codes "d")
    ∷ run_continues_step (codes "d")
    ∷ []

abbrev after_close : ChildSessions
after_close =
    perform_all agents (λ a. true) build 1 (close_children before_close (λ k. by_cancel))
      later_steps

close_children-drained_example :
    (any (λ r. is_active r.1.state && not (member r.0 after_close.runs)) after_close.records
      ≡ false)
    × (live_jobs after_close.jobs ≡ 0)
    × (after_close
        ≡ perform_all agents
            (λ a. true)
            build
            1
            (close_children before_close (λ k. by_cancel))
            (keep is_awaited later_steps))
close_children-drained_example =
    close_children-drained agents (λ a. true) build 1 stored true steps later_steps (λ k. by_cancel)

runs_on : (map (λ r. r.1.state) after_close.records) ≡ interrupted ∷ cancelled ∷ running ∷ []
unfolding close_children perform_all load_children
runs_on = refl
