-- ===== src/Children/Tracked.antt =====
-- Every child session that is under way has a live job or is that of a call (tools/task_tools.py).
use noah_code.Prelude.{
  ℕ, Bool, true, false, ◌&&◌, ◌||◌, not, Option, none, some, List, [], ◌∷◌, ◌≡◌, refl, ap, ◌∙◌,
  arith, leb, All, All-map, Bool-cases, inl, inr, if◌then◌else◌,
}
use noah_code.Python.Text.{Text, text_eq, strip, member}
use noah_code.Python.Text.Laws.{text_eq_iff, text_eq_refl}
use noah_code.Python.Dict.{get_item, set_item, update_item}
use noah_code.Permissions.Types.{Mode}
use noah_code.Teams.{AgentSpec, Answer, refused, answer, resolve_agent, authorize_agent, is_plan}
use noah_code.Children.{
  ChildRecord, ChildSessions, ChildError, queued, running, is_active, has_job, live_jobs,
  with_state, launch, after_answer, start_as, on_agent, start_child, continue_as, continued,
  follow_up, Ending, state_behind, job_begins, job_ends, with_result, with_question, with_error,
  by_cancel,
}

-- A record that is active has a live job, or a call has its run under way.
abbrev pub tracked : List Text → List (Text × Bool) → Text × ChildRecord → Bool
tracked runs jobs (k, r) = not (is_active r.state) || (has_job jobs k || member k runs)

abbrev pub IsTracked : ChildSessions → Type 0
IsTracked s = All (λ r. tracked s.runs s.jobs r ≡ true) s.records

has_job-set_item :
    (jobs : List (Text × Bool)) (id : Text) (b : Bool) (k : Text)
    → has_job (set_item text_eq id b jobs) k ≡ (if text_eq k id then b else has_job jobs k)
unfolding has_job
has_job-set_item [] id b k = ground (arith, text_eq_iff k id, text_eq_iff id k)
has_job-set_item ((j, c) ∷ jobs) id b k = elim (Bool-cases (text_eq j id)) [
  | inl same ↦ ground (arith, same, text_eq_iff j id, text_eq_iff j k, text_eq_iff k id)
  | inr other ↦ ground (
    arith,
    other,
    text_eq_iff j id,
    text_eq_iff j k,
    text_eq_iff k id,
    has_job-set_item jobs id b k,
  )
]

pub update_item-All :
    (P Q : Text × ChildRecord → Type 0) (id : Text) (f : ChildRecord → ChildRecord)
    (l : List (Text × ChildRecord))
    → ((k : Text) (r : ChildRecord) → P (k, r) → text_eq k id ≡ true → Q (k, f r))
    → ((k : Text) (r : ChildRecord) → P (k, r) → text_eq k id ≡ false → Q (k, r))
    → All P l
    → All Q (update_item text_eq id f l)
update_item-All P Q id f [] a b h = tt
update_item-All P Q id f ((k, r) ∷ l) a b h = elim (Bool-cases (text_eq k id)) [
  | inl same ↦ rw same (a k r h.0 same, update_item-All P Q id f l a b h.1)
  | inr other ↦ rw other (b k r h.0 other, update_item-All P Q id f l a b h.1)
]

-- The job is live from then on.
tracked-launched :
    (runs : List Text) (jobs : List (Text × Bool)) (id k : Text) (r : ChildRecord)
    → tracked runs jobs (k, r) ≡ true
    → tracked runs (set_item text_eq id true jobs) (k, r) ≡ true
tracked-launched runs jobs id k r h = ground (arith, h, has_job-set_item jobs id true k)

tracked-own :
    (runs : List Text) (jobs : List (Text × Bool)) (id k : Text) (r : ChildRecord)
    → text_eq k id ≡ true
    → tracked runs (set_item text_eq id true jobs) (k, r) ≡ true
tracked-own runs jobs id k r h = ground (arith, h, has_job-set_item jobs id true k)

pub set_item-All :
    (P Q : Text × ChildRecord → Type 0) (id : Text) (child : ChildRecord)
    (l : List (Text × ChildRecord))
    → ((k : Text) → text_eq k id ≡ true → Q (k, child))
    → ((k : Text) (r : ChildRecord) → P (k, r) → Q (k, r))
    → All P l
    → All Q (set_item text_eq id child l)
set_item-All P Q id child [] own rest h = (own id (text_eq_refl id), tt)
set_item-All P Q id child ((k, r) ∷ l) own rest h = elim (Bool-cases (text_eq k id)) [
  | inl same ↦ rw same (own k same, All-map l (λ x t. rest x.0 x.1 t) h.1)
  | inr other ↦ rw other (rest k r h.0, set_item-All P Q id child l own rest h.1)
]

set_item-IsTracked :
    (runs : List Text) (jobs : List (Text × Bool)) (id : Text) (child : ChildRecord)
    (l : List (Text × ChildRecord))
    → All (λ r. tracked runs jobs r ≡ true) l
    → All (λ r. tracked runs (set_item text_eq id true jobs) r ≡ true) (set_item text_eq id child l)
set_item-IsTracked runs jobs id child l h =
    set_item-All (λ r. tracked runs jobs r ≡ true)
      (λ r. tracked runs (set_item text_eq id true jobs) r ≡ true) id child l
      (λ k same. tracked-own runs jobs id k child same)
      (λ k r t. tracked-launched runs jobs id k r t) h

pub inactive_behind :
    (ending : Ending) (b : Bool) → (not (is_active (state_behind ending)) || b) ≡ true
inactive_behind with_result b = refl
inactive_behind with_question b = refl
inactive_behind with_error b = refl
inactive_behind by_cancel b = refl

pub job_begins-IsTracked :
    (s : ChildSessions) (id : Text) → IsTracked s → IsTracked (job_begins s id)
unfolding job_begins
job_begins-IsTracked s id h = elim (Bool-cases (has_job s.jobs id)) [
  | inl live ↦ rw live (
      update_item-All (λ r. tracked s.runs s.jobs r ≡ true) (λ r. tracked s.runs s.jobs r ≡ true) id
        (with_state running) s.records
        (λ k r t same.
          ap (λ b. b || member k s.runs) (ap (has_job s.jobs) ((text_eq_iff k id).0 same) ∙ live))
        (λ k r t other. t) h)
  | inr idle ↦ rw idle h
]

pub job_ends-IsTracked :
    (s : ChildSessions) (id : Text) (ending : Ending)
    → IsTracked s
    → IsTracked (job_ends s id ending)
unfolding job_ends
job_ends-IsTracked s id ending h = elim (Bool-cases (has_job s.jobs id)) [
  | inl live ↦ rw live (
      update_item-All (λ r. tracked s.runs s.jobs r ≡ true)
        (λ r. tracked s.runs (set_item text_eq id false s.jobs) r ≡ true) id
        (with_state (state_behind ending)) s.records (λ k r t same. inactive_behind ending _)
        (λ k r t other. ground (arith, t, other, has_job-set_item s.jobs id false k)) h)
  | inr idle ↦ rw idle h
]

IsTracked-if :
    (t : Bool) (a b : Option ChildError × ChildSessions)
    → IsTracked a.1
    → IsTracked b.1
    → IsTracked (if t then a else b).1
IsTracked-if true a b h k = h
IsTracked-if false a b h k = k

after_answer-IsTracked :
    (s : ChildSessions) (a : Answer AgentSpec) (f : AgentSpec → Option ChildError × ChildSessions)
    → IsTracked s
    → ((spec : AgentSpec) → IsTracked (f spec).1)
    → IsTracked (after_answer s a f).1
after_answer-IsTracked s (refused e) f h k = h
after_answer-IsTracked s (answer spec) f h k = k spec

module _ (agents : List AgentSpec) (approved : AgentSpec → Bool) (mode : Mode)
    (max_concurrent : ℕ) where
  on_agent-IsTracked :
      (s : ChildSessions) (name prompt : Text) (f : AgentSpec → Option ChildError × ChildSessions)
      → IsTracked s
      → ((spec : AgentSpec) → IsTracked (f spec).1)
      → IsTracked (on_agent agents approved mode max_concurrent s name prompt f).1
  unfolding on_agent
  on_agent-IsTracked s name prompt f h k =
      after_answer-IsTracked s (resolve_agent agents name) _ h
        (λ spec. after_answer-IsTracked s (authorize_agent approved mode spec (strip prompt)) f h k)

  start_as-IsTracked :
      (s : ChildSessions) (spec : AgentSpec) (isolate : Bool) (id : Text)
      → IsTracked s
      → IsTracked (start_as agents approved mode max_concurrent s spec isolate id).1
  unfolding start_as launch
  start_as-IsTracked s spec isolate id h = IsTracked-if (not spec.readonly && not isolate) _ _ h (
      IsTracked-if (not s.has_runtime) _ _ h (
        IsTracked-if (leb max_concurrent (live_jobs s.jobs)) _ _ h (
          IsTracked-if (isolate && is_plan mode) _ _ h
            (set_item-IsTracked s.runs s.jobs id _ s.records h))))

  pub start_child-IsTracked :
      (s : ChildSessions) (name prompt : Text) (isolate : Bool) (id : Text)
      → IsTracked s
      → IsTracked (start_child agents approved mode max_concurrent s name prompt isolate id).1
  unfolding start_child
  start_child-IsTracked s name prompt isolate id h =
      IsTracked-if s.closed _ _ h
        (on_agent-IsTracked s name prompt _ h (λ spec. start_as-IsTracked s spec isolate id h))

  continue_as-IsTracked :
      (s : ChildSessions) (child : ChildRecord) (id : Text) (background : Bool) (spec : AgentSpec)
      → IsTracked s
      → IsTracked (continue_as agents approved mode max_concurrent s child id background spec).1
  unfolding continue_as launch
  continue_as-IsTracked s child id background spec h =
      IsTracked-if (background && not spec.readonly && not child.isolated) _ _ h (
        IsTracked-if (background && leb max_concurrent (live_jobs s.jobs)) _ _ h (
          update_item-All (λ r. tracked s.runs s.jobs r ≡ true)
            (λ r. tracked s.runs (set_item text_eq id true s.jobs) r ≡ true) id (with_state queued)
            s.records (λ k r t same. tracked-own s.runs s.jobs id k (with_state queued r) same)
            (λ k r t other. tracked-launched s.runs s.jobs id k r t) h))

  continued-IsTracked :
      (s : ChildSessions) (id prompt : Text) (background : Bool) (o : Option ChildRecord)
      → IsTracked s
      → IsTracked (continued agents approved mode max_concurrent s id prompt background o).1
  unfolding continued
  continued-IsTracked s id prompt background none h = h
  continued-IsTracked s id prompt background (some child) h =
      IsTracked-if (has_job s.jobs id) _ _ h (
        on_agent-IsTracked s child.agent prompt _ h
          (λ spec. continue_as-IsTracked s child id background spec h))

  pub follow_up-IsTracked :
      (s : ChildSessions) (id prompt : Text) (background : Bool)
      → IsTracked s
      → IsTracked (follow_up agents approved mode max_concurrent s id prompt background).1
  unfolding follow_up
  follow_up-IsTracked s id prompt background h =
      IsTracked-if s.closed _ _ h
        (continued-IsTracked s id prompt background (get_item text_eq id s.records) h)
