-- ===== src/Store/Answers.antt =====
-- The answers in the table `interactions` (runtime_state.py).
use noah_code.Prelude.{
  true, false, not, some, List, [], ◌∷◌, ◌≡◌, refl, ap, ◌∙◌, arith, Bool-cases, inl, inr, All,
  if◌then◌else◌, null, keep,
}
use noah_code.Python.Text.{Text, text_eq}
use noah_code.Python.Text.Laws.{text_eq_iff}
use noah_code.Store.Table.{
  find_row, update_rows, update_found, find_row-update, find_row-update_other, find_row-append,
}
use noah_code.Store.Interactions.{
  Interaction, id_of, pending, is_pending, begin_interaction, resolved, resolve_interaction,
  interrupt_pending, interrupt_pending_interactions,
}

pub data Call : Type 0 where
  begins : Text → Text → Text → Text → Call
  resolves : Text → Text → Text → Call
  interrupts : Call

pub perform_all : List Interaction → List Call → List Interaction
perform_all rows [] = rows
perform_all rows (begins kind request id uuid ∷ calls) =
    perform_all (begin_interaction rows kind request id uuid).0 calls
perform_all rows (resolves id result state ∷ calls) =
    perform_all (resolve_interaction rows id result state) calls
perform_all rows (interrupts ∷ calls) = perform_all (interrupt_pending_interactions rows).0 calls

-- The call begins no interaction with the id.
abbrev pub IsElsewhere : Text → Call → Type 0
IsElsewhere id (begins kind request given uuid) =
    text_eq (if null given then uuid else given) id ≡ false
IsElsewhere id (resolves other result state) = Unit {0}
IsElsewhere id interrupts = Unit {0}

find_row-keep :
    (id other : Text) (rows : List Interaction)
    → text_eq other id ≡ false
    → find_row id_of id (keep (λ r. not (text_eq r.interaction_id other)) rows)
      ≡ find_row id_of id rows
find_row-keep id other [] h = refl
find_row-keep id other (r ∷ l) h = elim (Bool-cases (text_eq r.interaction_id other)) [
  | inl same ↦ ground (
    arith,
    h,
    same,
    ap (λ k. text_eq k id) ((text_eq_iff r.interaction_id other).0 same),
    find_row-keep id other l h,
  )
  | inr differs ↦ ground (arith, differs, find_row-keep id other l h)
]

find_row-interrupt_pending :
    (id : Text) (rows : List Interaction) (r : Interaction)
    → is_pending r ≡ false
    → find_row id_of id rows ≡ some r
    → find_row id_of id (interrupt_pending rows) ≡ some r
unfolding interrupt_pending
find_row-interrupt_pending id [] r h found = found
find_row-interrupt_pending id (x ∷ l) r h found = elim (Bool-cases (text_eq x.interaction_id id)) [
  | inl same ↦ ground (arith, h, found, same)
  | inr other ↦
      ground (arith, other, find_row-interrupt_pending id l r h (ground (arith, found, other)))
]

-- The row that a call leaves behind, where it was not pending.
begin-keeps :
    (rows : List Interaction) (id kind request given uuid : Text) (r : Interaction)
    → text_eq (if null given then uuid else given) id ≡ false
    → find_row id_of id rows ≡ some r
    → find_row id_of id (begin_interaction rows kind request given uuid).0 ≡ some r
unfolding begin_interaction
begin-keeps rows id kind request given uuid r other found =
    let selected : Text = if null given then uuid else given in
    find_row-append id_of id (keep (λ r. not (text_eq r.interaction_id selected)) rows) _ r
      (find_row-keep id selected rows other ∙ found)

resolve-keeps :
    (rows : List Interaction) (id other result state : Text) (r : Interaction)
    → is_pending r ≡ false
    → find_row id_of id rows ≡ some r
    → find_row id_of id (resolve_interaction rows other result state) ≡ some r
unfolding resolve_interaction
resolve-keeps rows id other result state r h found = elim (Bool-cases (text_eq other id)) [
  | inl same ↦
      ap (λ k. find_row id_of id (update_rows id_of k is_pending (resolved state result) rows))
        ((text_eq_iff other id).0 same)
      ∙ find_row-update id_of id is_pending (resolved state result) rows (λ r. refl)
      ∙ ap (update_found id_of is_pending (resolved state result)) found
      ∙ rw h refl
  | inr differs ↦
      find_row-update_other id_of id other is_pending (resolved state result) rows (λ r. refl)
        differs
      ∙ found
]

perform_all-keeps :
    (id : Text) (rows : List Interaction) (calls : List Call) (r : Interaction)
    → All (IsElsewhere id) calls
    → is_pending r ≡ false
    → find_row id_of id rows ≡ some r
    → find_row id_of id (perform_all rows calls) ≡ some r
unfolding perform_all
perform_all-keeps id rows [] r elsewhere h found = found
perform_all-keeps id rows (begins kind request given uuid ∷ calls) r elsewhere h found =
    perform_all-keeps id (begin_interaction rows kind request given uuid).0 calls r elsewhere.1 h
      (begin-keeps rows id kind request given uuid r elsewhere.0 found)
perform_all-keeps id rows (resolves other result state ∷ calls) r elsewhere h found =
    perform_all-keeps id (resolve_interaction rows other result state) calls r elsewhere.1 h
      (resolve-keeps rows id other result state r h found)
perform_all-keeps id rows (interrupts ∷ calls) r elsewhere h found =
    perform_all-keeps id (interrupt_pending_interactions rows).0 calls r elsewhere.1 h
      (unfold interrupt_pending_interactions in find_row-interrupt_pending id rows r h found)

-- The first answer to a pending interaction, with a state that is not `pending`, is kept: no later
-- call of `resolve_interaction` or `interrupt_pending_interactions` changes the row, nor does one of
-- `begin_interaction` for another id.
pub resolve_interaction-first :
    (rows : List Interaction) (id result state : Text) (r : Interaction) (calls : List Call)
    → find_row id_of id rows ≡ some r
    → is_pending r ≡ true
    → text_eq state pending ≡ false
    → All (IsElsewhere id) calls
    → find_row id_of id (perform_all (resolve_interaction rows id result state) calls)
      ≡ some (resolved state result r)
resolve_interaction-first rows id result state r calls found is_open over elsewhere =
    perform_all-keeps id (resolve_interaction rows id result state) calls (resolved state result r)
      elsewhere (unfold is_pending in over)
      (unfold resolve_interaction in
        (find_row-update id_of id is_pending (resolved state result) rows (λ r. refl)
          ∙ ap (update_found id_of is_pending (resolved state result)) found
          ∙ rw is_open refl))
