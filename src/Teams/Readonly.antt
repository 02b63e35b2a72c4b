-- ===== src/Teams/Readonly.antt =====
-- Who may take part in a team (`team` of tools/task_tools.py).
use noah_code.Prelude.{
  Bool, true, ◌&&◌, ◌||◌, not, Option, none, some, List, [], ◌∷◌, ◌++◌, ◌≡◌, subst, arith, null,
  map, All, Bool-cases, inl, inr, collect,
}
use noah_code.Python.Text.{Text, strip}
use noah_code.Permissions.Types.{Mode}
use noah_code.Teams.Workflows.{TeamPhase, TeamWorkflow, get_team_workflow}
use noah_code.Teams.{
  AgentSpec, TeamReport, TeamStatus, Answer, refused, answer, then_ask, Member, Prepared, Section,
  is_plan, is_finished, resolve_roles, check_members, prepare_phases, authorize_members, run_role,
  run_phases, team, phase_status, run_team, ran,
}

-- What is so of an answer, where there is one.
abbrev pub Answers {ℓ κ} : {A : Type ℓ} → (A → Type κ) → Answer A → Type κ
Answers P (refused e) = Unit
Answers P (answer x) = P x

Answers-then {ℓ κ μ ν} :
    {A : Type ℓ} {B : Type κ} (P : A → Type μ) (Q : B → Type ν) (a : Answer A) (f : A → Answer B)
    → Answers P a
    → ((x : A) → P x → Answers Q (f x))
    → Answers Q (then_ask a f)
Answers-then P Q (refused e) f h k = tt
Answers-then P Q (answer x) f h k = k x h

Answers-any {ℓ} : {A : Type ℓ} (a : Answer A) → Answers (λ x. Unit {0}) a
Answers-any (refused e) = tt
Answers-any (answer x) = tt

-- In a phase that is read-only the agent is read-only and plans, and in plan mode every agent is
-- read-only.
abbrev pub may_join : Mode → TeamPhase → AgentSpec → Bool
may_join mode phase a =
    (not phase.readonly || (a.readonly && is_plan a.mode)) && (not (is_plan mode) || a.readonly)

abbrev pub MayJoin : Mode → TeamPhase → List Member → Type 0
MayJoin mode phase l = All (λ m. may_join mode phase m.0 ≡ true) l

check_members-MayJoin :
    (mode : Mode) (phase : TeamPhase) (l : List Member)
    → Answers (MayJoin mode phase) (check_members mode phase l)
unfolding check_members
check_members-MayJoin mode phase [] = tt
check_members-MayJoin mode phase ((a, r) ∷ l) =
    elim (Bool-cases (phase.readonly && (not a.readonly || not (is_plan a.mode)))) [
      | inl writes ↦ rw writes tt
      | inr reads ↦ elim (Bool-cases (is_plan mode && not a.readonly)) [
        | inl mutates ↦ rw (reads, mutates) tt
        | inr fine ↦
            rw (reads, fine)
              (Answers-then (MayJoin mode phase) (MayJoin mode phase) (check_members mode phase l) _
                (check_members-MayJoin mode phase l) (λ ms h. (ground (arith, reads, fine), h)))
      ]
    ]

abbrev AllMayJoin : Mode → List Prepared → Type 0
AllMayJoin mode l = All (λ p. MayJoin mode p.0 p.1) l

prepare_phases-MayJoin :
    (agents : List AgentSpec) (mode : Mode) (l : List TeamPhase)
    → Answers (AllMayJoin mode) (prepare_phases agents mode l)
unfolding prepare_phases
prepare_phases-MayJoin agents mode [] = tt
prepare_phases-MayJoin agents mode (phase ∷ l) =
    Answers-then (λ x. Unit {0}) (AllMayJoin mode) (resolve_roles agents phase.roles) _
      (Answers-any (resolve_roles agents phase.roles))
      (λ roles u.
        Answers-then (MayJoin mode phase) (AllMayJoin mode) (check_members mode phase roles) _
          (check_members-MayJoin mode phase roles)
          (λ members h.
            Answers-then (AllMayJoin mode) (AllMayJoin mode) (prepare_phases agents mode l) _
              (prepare_phases-MayJoin agents mode l) (λ rest k. (h, k))))

module _ (execute : AgentSpec → Text → Text × TeamStatus) where
  abbrev pub AllJoined : Mode → List Section → Type 0
  AllJoined mode l = All (λ s. MayJoin mode s.phase s.members) l

  run_phases-MayJoin :
      (mode : Mode) (workflow : TeamWorkflow) (goal : Text) (reports : List TeamReport)
      (l : List Prepared)
      → AllMayJoin mode l
      → AllJoined mode (run_phases execute workflow goal reports l)
  unfolding run_phases
  run_phases-MayJoin mode workflow goal reports [] h = tt
  run_phases-MayJoin mode workflow goal reports ((phase, members) ∷ l) h =
      let new : List TeamReport = map (run_role execute workflow phase goal reports) members in
      elim (Bool-cases (is_finished (phase_status new))) [
        | inl goes_on ↦
            rw goes_on (h.0, run_phases-MayJoin mode workflow goal (reports ++ new) l h.1)
        | inr stops ↦ rw stops (h.0, tt)
      ]

  run_team-MayJoin :
      (agents : List AgentSpec) (approved : AgentSpec → Bool) (mode : Mode) (goal : Text)
      (w : Option TeamWorkflow)
      → Answers (λ r. AllJoined mode r.1) (run_team execute agents approved mode goal w)
  unfolding run_team
  run_team-MayJoin agents approved mode goal none = tt
  run_team-MayJoin agents approved mode goal (some selected) =
      Answers-then (AllMayJoin mode) (λ r. AllJoined mode r.1)
        (prepare_phases agents mode selected.phases) _
        (prepare_phases-MayJoin agents mode selected.phases)
        (λ prepared h.
          Answers-then (λ x. Unit {0}) (λ r. AllJoined mode r.1)
            (authorize_members approved mode goal (collect (λ p. p.1) prepared)) _
            (Answers-any (authorize_members approved mode goal (collect (λ p. p.1) prepared)))
            (λ members u. unfold ran in run_phases-MayJoin mode selected goal [] prepared h))

  -- Every agent that a team has run is read-only and plans, if its phase is read-only, and it is
  -- read-only, if the engine is in plan mode, whatever agents there are and whatever is approved.
  pub team-MayJoin :
      (agents : List AgentSpec) (approved : AgentSpec → Bool) (mode : Mode)
      (objective workflow : Text) (status : TeamStatus) (sections : List Section)
      → team execute agents approved mode objective workflow ≡ answer (status, sections)
      → All (λ s. All (λ m. may_join mode s.phase m.0 ≡ true) s.members) sections
  unfolding team
  team-MayJoin agents approved mode objective workflow status sections e =
      subst (Answers (λ r. AllJoined mode r.1)) e (elim (Bool-cases (null (strip objective))) [
        | inl empty ↦ rw empty tt
        | inr given ↦
            rw given
              (run_team-MayJoin agents approved mode (strip objective) (get_team_workflow workflow))
      ])
