-- ===== src/Store/Recovery.antt =====
-- `recover_file_operations` (runtime_state.py): the files and the rows behind it.
use noah_code.Prelude.{
  Bool, true, false, ◌&&◌, ◌||◌, List, [], ◌∷◌, ◌≡◌, refl, ap, ◌∙◌, arith, Bool-cases, inl, inr,
  All, All-map, if◌then◌else◌, keep, any, null,
}
use noah_code.Python.Text.{Text, text_eq}
use noah_code.Python.Text.Laws.{text_eq_refl}
use noah_code.Store.Table.{find_row, update_rows}
use noah_code.Store.FileOperations.{
  FileOperation, id_of, path_of, is_started, close, recovered, Recovery, insert_newest, by_newest,
  recover_row, recover_rows, recover_file_operations,
}
use noah_code.Store.Chronology.{
  IsChronological, keep-IsChronological, oldest_preimage, recover_rows-files,
}

abbrev same_id : FileOperation → FileOperation → Bool
same_id r x = text_eq r.operation_id x.operation_id

-- Each started row is one of the operations.
abbrev IsCovered : List FileOperation → List FileOperation → Type 0
IsCovered l rows = All (λ r. is_started r ≡ true → any (same_id r) l ≡ true) rows

any-insert_newest :
    (q : FileOperation → Bool) (x : FileOperation) (l : List FileOperation)
    → any q (insert_newest x l) ≡ (q x || any q l)
any-insert_newest q x [] = refl
any-insert_newest q x (y ∷ l) = ground (arith, any-insert_newest q x l)

any-by_newest : (q : FileOperation → Bool) (l : List FileOperation) → any q (by_newest l) ≡ any q l
any-by_newest q [] = refl
any-by_newest q (x ∷ l) =
    any-insert_newest q x (by_newest l) ∙ ap (λ b. q x || b) (any-by_newest q l)

keep-IsCovered : (rows : List FileOperation) → IsCovered (keep is_started rows) rows
keep-IsCovered [] = tt
keep-IsCovered (x ∷ l) = (
  λ h. ground (arith, h, text_eq_refl x.operation_id),
  All-map l (λ r f h. ground (arith, f h)) (keep-IsCovered l),
)

update-IsCovered_row :
    (x r : FileOperation) (l : List FileOperation)
    → (is_started r ≡ true → any (same_id r) (x ∷ l) ≡ true)
    → let r' : FileOperation =
        if text_eq r.operation_id x.operation_id && is_started r then close recovered r else r in
      is_started r' ≡ true → any (same_id r') l ≡ true
update-IsCovered_row x r l h k = elim (Bool-cases (text_eq r.operation_id x.operation_id)) [
  | inr differs ↦ rw differs (ground (arith, h, k, differs))
  | inl same ↦ elim (Bool-cases (is_started r)) [
    | inl open_one ↦ ground (arith, k, same, open_one)
    | inr closed ↦ ground (arith, k, same, closed)
  ]
]

update-IsCovered :
    (x : FileOperation) (l rows : List FileOperation)
    → IsCovered (x ∷ l) rows
    → IsCovered l (update_rows id_of x.operation_id is_started (close recovered) rows)
update-IsCovered x l [] h = tt
update-IsCovered x l (r ∷ rows) h = (update-IsCovered_row x r l h.0, update-IsCovered x l rows h.1)

no_cover : (rows : List FileOperation) → IsCovered [] rows → any is_started rows ≡ false
no_cover [] h = refl
no_cover (r ∷ rows) h = ground (arith, h.0, no_cover rows h.1)

recover_rows-closed :
    (s : Recovery) (l : List FileOperation)
    → IsCovered l s.rows
    → any is_started (recover_rows s l).rows ≡ false
unfolding recover_rows
recover_rows-closed s [] h = no_cover s.rows h
recover_rows-closed s (x ∷ l) h =
    recover_rows-closed (recover_row s x) l (update-IsCovered x l s.rows h)

abbrev recovery_order : Recovery → List FileOperation
recovery_order s = by_newest (keep is_started s.rows)

recover_file_operations_lem :
    (s : Recovery)
    → ((recover_file_operations s).0.rows ≡ (recover_rows s (recovery_order s)).rows)
      × ((recover_file_operations s).0.files ≡ (recover_rows s (recovery_order s)).files)
unfolding recover_file_operations
recover_file_operations_lem s = elim (Bool-cases (null (recovery_order s))) [
  | inl nothing ↦ rw nothing (refl, refl)
  | inr some_row ↦ rw some_row (refl, refl)
]

keep-none : (rows : List FileOperation) → any is_started rows ≡ false → keep is_started rows ≡ []
keep-none [] h = refl
keep-none (r ∷ rows) h = elim (Bool-cases (is_started r)) [
  | inl open_one ↦ ground (arith, h, open_one)
  | inr closed ↦ ground (arith, closed, keep-none rows (ground (arith, h, closed)))
]

recover_file_operations_idle :
    (s : Recovery) → any is_started s.rows ≡ false → recover_file_operations s ≡ (s, [])
unfolding recover_file_operations recover_rows
recover_file_operations_idle s h = rw (keep-none s.rows h) refl

-- Whatever the rows are, no operation is started behind a recovery, so that a second one changes nothing.
pub recover_file_operations_twice :
    (s : Recovery)
    → recover_file_operations (recover_file_operations s).0 ≡ ((recover_file_operations s).0, [])
recover_file_operations_twice s =
    let l : List FileOperation = keep is_started s.rows in
    recover_file_operations_idle (recover_file_operations s).0 (
      ap (any is_started) (recover_file_operations_lem s).0
      ∙ recover_rows-closed s (by_newest l)
          (All-map s.rows (λ r f k. any-by_newest (same_id r) l ∙ f k) (keep-IsCovered s.rows)))

-- Where of any two operations on the same path the later row began later, every path holds behind a
-- recovery what it held before the oldest of the started operations on it, a path without one holds
-- what it held, and a second recovery changes nothing.
pub recover_file_operations-oldest :
    (s : Recovery)
    → IsChronological s.rows
    → let s' : Recovery = (recover_file_operations s).0 in
      (recover_file_operations s' ≡ (s', []))
      × ((p : Text)
          → s'.files p ≡ oldest_preimage (s.files p) (find_row path_of p (keep is_started s.rows)))
recover_file_operations-oldest s h = (
  recover_file_operations_twice s,
  λ p.
      ap (λ fs. fs p) (recover_file_operations_lem s).1
      ∙ recover_rows-files p s (keep is_started s.rows) (keep-IsChronological is_started s.rows h),
)
