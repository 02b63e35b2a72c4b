-- ===== src/Teams/Tests.antt =====
-- A review by a team.
use noah_code.Prelude.{
  true, false, List, [], ◌∷◌, ◌≡◌, refl, arith, All, if◌then◌else◌, map, length, ◌≤◌,
}
use noah_code.Python.Text.{Text, codes, text_eq}
use noah_code.Permissions.Types.{build, plan}
use noah_code.Teams.Workflows.{TeamRole, TeamPhase, review_workflow}
use noah_code.Teams.{
  AgentSpec, TeamReport, TeamStatus, finished, needs_input, Prepared, Section, team, run_phases,
  answer, refused, not_readonly, is_finished, assignment, team_status, reports_heading, heading,
  team_prompt, distill_input_limit,
}
use noah_code.Teams.Readonly.{may_join, team-MayJoin}
use noah_code.Teams.Phases.{is_complete, run_phases-is_complete}
use noah_code.Teams.Truncated.{length-team_prompt}

abbrev reader : Text → AgentSpec
reader name = record { name = name; mode = plan; readonly = true }

abbrev agents : List AgentSpec
agents =
    reader (codes "explore")
    ∷ reader (codes "reviewer")
    ∷ record { name = codes "general"; mode = build; readonly = false }
    ∷ []

-- The agent that explores asks a question.
abbrev execute : AgentSpec → Text → Text × TeamStatus
execute a prompt =
    if text_eq a.name (codes "explore")
    then (codes "which?", needs_input)
    else (codes "done", finished)

abbrev prepared : List Prepared
prepared = map (λ p. (p, map (λ r. (reader r.agent, r)) p.roles)) review_workflow.phases

abbrev sections : List Section
sections = run_phases execute review_workflow (codes "goal") [] prepared

-- The second phase does not start.
stops :
    team execute agents (λ a. true) build (codes " goal ") (codes "Review")
    ≡ answer (needs_input, sections)
unfolding team run_phases
stops = refl

refuses_writer :
    team execute
      (record { name = codes "reviewer"; mode = build; readonly = false } ∷ agents)
      (λ a. true)
      build
      (codes "goal")
      (codes "review")
    ≡ refused (not_readonly (codes "reviewer") (codes "inspect"))
unfolding team
refuses_writer = refl

team-MayJoin_example : All (λ s. All (λ m. may_join build s.phase m.0 ≡ true) s.members) sections
team-MayJoin_example =
    team-MayJoin execute agents (λ a. true) build (codes " goal ") (codes "Review") needs_input
      sections stops

run_phases-is_complete_example :
    is_finished (team_status execute sections) ≡ is_complete sections prepared
run_phases-is_complete_example =
    run_phases-is_complete execute review_workflow (codes "goal") [] prepared

abbrev report : TeamReport
report = record {
  agent = codes "explore";
  phase = codes "inspect";
  text = codes "found it";
  status = finished;
}

abbrev phase : TeamPhase
phase = record { name = codes "p"; title = codes "P"; roles = []; readonly = true }

abbrev reviewer_role : TeamRole
reviewer_role = record { agent = codes "reviewer"; instruction = codes "look" }

length-team_prompt_example :
    length (team_prompt review_workflow phase reviewer_role (codes "goal") (report ∷ []))
    ≤ distill_input_limit
unfolding assignment reports_heading heading
length-team_prompt_example =
    length-team_prompt review_workflow phase reviewer_role (codes "goal") (report ∷ [])
      (omega arith)
