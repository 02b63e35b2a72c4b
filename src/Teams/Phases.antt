-- ===== src/Teams/Phases.antt =====
-- The phases of a team (`team` of tools/task_tools.py), of which one that is not completed is the last.
use noah_code.Prelude.{
  Bool, true, false, ◌||◌, not, List, [], ◌∷◌, ◌++◌, ◌≡◌, refl, ap, sym, ◌∙◌, arith, any, map,
  Bool-cases, inl, inr, ◌&&◌,
}
use noah_code.Python.Text.{Text}
use noah_code.Teams.Workflows.{TeamPhase, TeamWorkflow}
use noah_code.Teams.{
  AgentSpec, TeamReport, TeamStatus, finished, needs_input, failed, Prepared, Section, is_finished,
  is_failed, wants_input, phase_status, run_role, run_phases, team_status, Member,
}

-- Every report of the phase is completed.
abbrev pub all_finished : List TeamReport → Bool
all_finished l = not (any (λ r. not (is_finished r.status)) l)

unfinished_at :
    (status : TeamStatus) (l : List TeamReport)
    → any (λ r. not (is_finished r.status)) l
      ≡ (any (λ r. is_failed r.status) l || any (λ r. wants_input r.status) l)
    → (not (is_finished status) || any (λ r. not (is_finished r.status)) l) ≡ (
        (is_failed status || any (λ r. is_failed r.status) l)
        || (wants_input status || any (λ r. wants_input r.status) l))
unfinished_at finished l h = ground (arith, h)
unfinished_at needs_input l h = ground (arith, h)
unfinished_at failed l h = ground (arith, h)

unfinished_cases :
    (l : List TeamReport)
    → any (λ r. not (is_finished r.status)) l
      ≡ (any (λ r. is_failed r.status) l || any (λ r. wants_input r.status) l)
unfinished_cases [] = refl
unfinished_cases (r ∷ l) = unfinished_at r.status l (unfinished_cases l)

phase_status-all_finished : (l : List TeamReport) → is_finished (phase_status l) ≡ all_finished l
unfolding phase_status
phase_status-all_finished l = ground (arith, unfinished_cases l)

-- Every phase ran, and all reports of all phases are completed.
abbrev pub is_complete : List Section → List Prepared → Bool
is_complete [] [] = true
is_complete [] (p ∷ l) = false
is_complete (s ∷ k) [] = false
is_complete (s ∷ k) (p ∷ l) = all_finished s.reports && is_complete k l

module _ (execute : AgentSpec → Text → Text × TeamStatus) where
  abbrev section_of : TeamWorkflow → Text → List TeamReport → TeamPhase → List Member → Section
  section_of workflow goal reports phase members =
      let new : List TeamReport = map (run_role execute workflow phase goal reports) members in
      record { phase = phase; members = members; reports = new; status = phase_status new }

  is_complete-on :
      (s : Section) (p : Prepared) (k : List Section) (l : List Prepared)
      → s.status ≡ phase_status s.reports
      → is_finished (team_status execute k) ≡ is_complete k l
      → is_finished s.status ≡ true
      → is_finished (team_status execute (s ∷ k)) ≡ is_complete (s ∷ k) (p ∷ l)
  unfolding team_status
  is_complete-on s p k l e h done =
      rw (done, sym (phase_status-all_finished s.reports) ∙ ap is_finished (sym e) ∙ done) h

  is_complete-stop :
      (s : Section) (p : Prepared) (l : List Prepared)
      → s.status ≡ phase_status s.reports
      → is_finished s.status ≡ false
      → is_finished (team_status execute (s ∷ [])) ≡ is_complete (s ∷ []) (p ∷ l)
  unfolding team_status
  is_complete-stop s p l e stops =
      rw (stops, sym (phase_status-all_finished s.reports) ∙ ap is_finished (sym e) ∙ stops) stops

  -- A team is completed exactly if every phase ran and all reports of all phases are completed.
  pub run_phases-is_complete :
      (workflow : TeamWorkflow) (goal : Text) (reports : List TeamReport) (l : List Prepared)
      → is_finished (team_status execute (run_phases execute workflow goal reports l))
        ≡ is_complete (run_phases execute workflow goal reports l) l
  unfolding run_phases
  run_phases-is_complete workflow goal reports [] = unfold team_status in refl
  run_phases-is_complete workflow goal reports ((phase, members) ∷ l) =
      let here : Section = section_of workflow goal reports phase members in
      elim (Bool-cases (is_finished here.status)) [
        | inl goes_on ↦ rw goes_on (
            is_complete-on here (phase, members)
              (run_phases execute workflow goal (reports ++ here.reports) l) l refl
              (run_phases-is_complete workflow goal (reports ++ here.reports) l) goes_on)
        | inr stops ↦ rw stops (is_complete-stop here (phase, members) l refl stops)
      ]
