-- ===== src/Children/Closed.antt =====
-- What `__init__` and `close` leave of the child sessions (tools/task_tools.py).
use noah_code.Prelude.{
  Bool, true, false, Option, none, some, List, [], ◌∷◌, ◌≡◌, refl, ap, sym, ◌∙◌, arith, map, any,
  All, Bool-cases, inl, inr, ◌&&◌, not,
}
use noah_code.Python.Text.{Text, text_eq, member}
use noah_code.Children.{
  ChildRecord, ChildSessions, is_active, load_children, has_job, Ending, job_ends, close_children,
  as_interrupted, get_item, by_cancel, cancel_found, ended_with, or_false, not,
}
use noah_code.Children.Tracked.{IsTracked, tracked, job_ends-IsTracked, inactive_behind}
use noah_code.Python.Dict.{get_item}
use noah_code.Children.Foreground.{run_continues, run_ends}

interrupted_at : (k : Text) (r : ChildRecord) → tracked [] [] (as_interrupted (k, r)) ≡ true
interrupted_at k r = elim (Bool-cases (is_active r.state)) [
  | inl active ↦ rw active refl
  | inr idle ↦ rw idle (ground (arith, idle))
]

pub load_children-IsTracked :
    (l : List (Text × ChildRecord)) (b : Bool) → IsTracked (load_children l b)
unfolding load_children
load_children-IsTracked [] b = tt
load_children-IsTracked ((k, r) ∷ l) b = (interrupted_at k r, load_children-IsTracked l b)

idle_map :
    (endings : Text → Ending) (l : List (Text × ChildRecord)) → map (ended_with endings []) l ≡ l
unfolding ended_with has_job
idle_map endings [] = refl
idle_map endings ((k, r) ∷ l) = ap (λ t. (k, r) ∷ t) (idle_map endings l)

closed_row :
    (runs : List Text) (endings : Text → Ending) (jobs : List (Text × Bool)) (k : Text)
    (r : ChildRecord)
    → tracked runs jobs (k, r) ≡ true
    → tracked runs [] (ended_with endings jobs (k, r)) ≡ true
unfolding ended_with has_job
closed_row runs endings jobs k r h = elim (Bool-cases (or_false (get_item text_eq k jobs))) [
  | inl live ↦ rw live (inactive_behind (endings k) _)
  | inr idle ↦ rw idle (ground (arith, h, idle))
]

closed_rows :
    (runs : List Text) (endings : Text → Ending) (jobs : List (Text × Bool))
    (l : List (Text × ChildRecord))
    → All (λ r. tracked runs jobs r ≡ true) l
    → All (λ r. tracked runs [] r ≡ true) (map (ended_with endings jobs) l)
closed_rows runs endings jobs [] h = tt
closed_rows runs endings jobs ((k, r) ∷ l) h =
    (closed_row runs endings jobs k r h.0, closed_rows runs endings jobs l h.1)

-- Without jobs, what is active is a run that a call waits for.
pub awaited_rows :
    (runs : List Text) (l : List (Text × ChildRecord))
    → All (λ r. tracked runs [] r ≡ true) l
    → any (λ r. is_active r.1.state && not (member r.0 runs)) l ≡ false
unfolding has_job
awaited_rows runs [] h = refl
awaited_rows runs ((k, r) ∷ l) h = ground (arith, h.0, awaited_rows runs l h.1)

pub cancel_found-IsTracked :
    (s : ChildSessions) (id : Text) (o : Option ChildRecord)
    → IsTracked s
    → IsTracked (cancel_found s id o).1
unfolding cancel_found
cancel_found-IsTracked s id none h = h
cancel_found-IsTracked s id (some child) h = job_ends-IsTracked s id by_cancel h

pub close_children-IsTracked :
    (s : ChildSessions) (endings : Text → Ending)
    → IsTracked s
    → IsTracked (close_children s endings)
unfolding close_children
close_children-IsTracked s endings h = closed_rows s.runs endings s.jobs s.records h

no_job_at : (id : Text) → has_job [] id ≡ false
unfolding has_job
no_job_at id = refl

pub no_job : (jobs : List (Text × Bool)) (id : Text) → jobs ≡ [] → has_job jobs id ≡ false
no_job jobs id e = ap (λ l. has_job l id) e ∙ no_job_at id

pub job_ends-idle :
    (s : ChildSessions) (id : Text) (ending : Ending) → s.jobs ≡ [] → job_ends s id ending ≡ s
unfolding job_ends
job_ends-idle s id ending e = rw (no_job s.jobs id e) refl

pub cancel_found-idle :
    (s : ChildSessions) (id : Text) (o : Option ChildRecord)
    → s.jobs ≡ []
    → (cancel_found s id o).1 ≡ s
unfolding cancel_found
cancel_found-idle s id none e = refl
cancel_found-idle s id (some child) e = job_ends-idle s id by_cancel e

pub close_children-idle :
    (s : ChildSessions) (endings : Text → Ending)
    → s.closed ≡ true
    → s.jobs ≡ []
    → close_children s endings ≡ s
unfolding close_children
close_children-idle s endings h e =
    ap (λ l. record s { records = l; jobs = []; closed = true })
      (ap (λ j. map (ended_with endings j) s.records) e ∙ idle_map endings s.records)
    ∙ ap (λ j. record s { jobs = j; closed = true }) (sym e)
    ∙ ap (λ b. record s { closed = b }) (sym h)

-- The runner is closed and has no jobs.
abbrev pub IsClosed : ChildSessions → Type 0
IsClosed s = (s.closed ≡ true) × (s.jobs ≡ [])

pub run_continues-IsClosed :
    (s : ChildSessions) (id : Text) → IsClosed s → IsClosed (run_continues s id)
unfolding run_continues
run_continues-IsClosed s id h = elim (Bool-cases (member id s.runs)) [
  | inl live ↦ rw live h
  | inr idle ↦ rw idle h
]

pub run_ends-IsClosed :
    (s : ChildSessions) (id : Text) (ending : Ending) → IsClosed s → IsClosed (run_ends s id ending)
unfolding run_ends
run_ends-IsClosed s id ending h = elim (Bool-cases (member id s.runs)) [
  | inl live ↦ rw live h
  | inr idle ↦ rw idle h
]
