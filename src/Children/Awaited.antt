-- ===== src/Children/Awaited.antt =====
-- The records of the runs that a call waits for (tools/task_tools.py).
use noah_code.Prelude.{
  Bool, true, false, ◌||◌, not, none, some, List, [], ◌∷◌, ◌≡◌, refl, ap, arith, All, Bool-cases,
  inl, inr, keep, ◌∙◌,
}
use noah_code.Python.Text.{Text, text_eq, member}
use noah_code.Python.Text.Laws.{text_eq_iff}
use noah_code.Python.Dict.{get_item, set_item, update_item}
use noah_code.Children.{
  ChildRecord, ChildSessions, queued, running, with_state, Ending, state_behind,
}
use noah_code.Children.Foreground.{new_record, queued_record, run_begins, run_continues, run_ends}
use noah_code.Children.Tracked.{IsTracked, tracked, set_item-All, update_item-All, inactive_behind}

same_member :
    (k id : Text) (runs : List Text)
    → text_eq k id ≡ true
    → member id runs ≡ true
    → member k runs ≡ true
same_member k id runs same h = ap (λ x. member x runs) ((text_eq_iff k id).0 same) ∙ h

member-keep :
    (k id : Text) (runs : List Text)
    → text_eq k id ≡ false
    → member k (keep (λ x. not (text_eq x id)) runs) ≡ member k runs
unfolding member
member-keep k id [] other = refl
member-keep k id (x ∷ runs) other = elim (Bool-cases (text_eq x id)) [
  | inl gone ↦
      rw (gone, keep)
        (ground (
          arith,
          other,
          gone,
          text_eq_iff x id,
          text_eq_iff k x,
          text_eq_iff k id,
          member-keep k id runs other,
        ))
  | inr stays ↦ rw (stays, keep) (ap (λ b. text_eq k x || b) (member-keep k id runs other))
]

module _ (runs : List Text) (jobs : List (Text × Bool)) (id agent : Text) where
  abbrev Now : Text × ChildRecord → Type 0
  Now r = tracked (id ∷ runs) jobs r ≡ true

  Now-own : (k : Text) (r : ChildRecord) → text_eq k id ≡ true → Now (k, r)
  unfolding member
  Now-own k r same = ground (arith, same)

  Now-rest : (k : Text) (r : ChildRecord) → tracked runs jobs (k, r) ≡ true → Now (k, r)
  unfolding member
  Now-rest k r h = ground (arith, h)

  queued_record-IsTracked :
      (l : List (Text × ChildRecord))
      → All (λ r. tracked runs jobs r ≡ true) l
      → All Now (queued_record id agent l)
  unfolding queued_record
  queued_record-IsTracked l h =
      elim (get_item text_eq id l)
        as (λ o. All Now (elim o [
          | none ↦ set_item text_eq id (new_record id agent) l
          | some r ↦ update_item text_eq id (with_state queued) l
        ])) [
          | none ↦
              set_item-All (λ r. tracked runs jobs r ≡ true) Now id (new_record id agent) l
                (λ k same. Now-own k (new_record id agent) same) Now-rest h
          | some r ↦
              update_item-All (λ r. tracked runs jobs r ≡ true) Now id (with_state queued) l
                (λ k r t same. Now-own k (with_state queued r) same) (λ k r t other. Now-rest k r t)
                h
        ]

pub run_begins-IsTracked :
    (s : ChildSessions) (agent id : Text) → IsTracked s → IsTracked (run_begins s agent id)
unfolding run_begins
run_begins-IsTracked s agent id h = queued_record-IsTracked s.runs s.jobs id agent s.records h

pub run_continues-IsTracked :
    (s : ChildSessions) (id : Text) → IsTracked s → IsTracked (run_continues s id)
unfolding run_continues
run_continues-IsTracked s id h = elim (Bool-cases (member id s.runs)) [
  | inl live ↦ rw live (
      update_item-All (λ r. tracked s.runs s.jobs r ≡ true) (λ r. tracked s.runs s.jobs r ≡ true) id
        (with_state running) s.records
        (λ k r t same. ground (arith, same_member k id s.runs same live)) (λ k r t other. t) h)
  | inr idle ↦ rw idle h
]

pub run_ends-IsTracked :
    (s : ChildSessions) (id : Text) (ending : Ending)
    → IsTracked s
    → IsTracked (run_ends s id ending)
unfolding run_ends
run_ends-IsTracked s id ending h = elim (Bool-cases (member id s.runs)) [
  | inl live ↦ rw live (
      update_item-All (λ r. tracked s.runs s.jobs r ≡ true)
        (λ r. tracked (keep (λ k. not (text_eq k id)) s.runs) s.jobs r ≡ true) id
        (with_state (state_behind ending)) s.records (λ k r t same. inactive_behind ending _)
        (λ k r t other. ground (arith, t, member-keep k id s.runs other)) h)
  | inr idle ↦ rw idle h
]
