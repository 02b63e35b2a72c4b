-- ===== src/Patch/Applied.antt =====
-- The transaction of `apply_patch` (tools/workspace_tools.py) where no step fails.
use noah_code.Prelude.{
  Bool, true, false, none, some, List, [], ◌∷◌, ◌++◌, map, ◌≡◌, refl, ap, sym, ◌∙◌, subst, arith,
  any, null, Bool-cases, inl, inr, keep,
}
use noah_code.Python.Text.{Text, text_eq}
use noah_code.Files.{FileSystem, put_file}
use noah_code.Journal.{option_eq}
use noah_code.Patch.{Item, content_of}
use noah_code.Patch.Commit.{
  PatchEnv, Workspace, Progress, PatchStep, stage, verify, begin_durable, record_pre, commit, sync,
  record_post, complete_durable, after_file, perform, run, begin_operation, with_rows, is_due,
}
use noah_code.Patch.Steps.{
  AreNew, begin_operation_lem, IsUnderWay-begin, IsUnderWay-record_pre, IsUnderWay-commit,
  IsUnderWay-record_post,
}
use noah_code.Patch.UnderWay.{IsUnderWay}
use noah_code.Patch.Order.{IsSafe}
use noah_code.Store.FileOperations.{is_started, FileOperation, complete_file_operations}
use noah_code.Patch.Restored.{operation_of, begun}
use noah_code.Patch.Failing.{run-step}
use noah_code.Patch.Completed.{completed_row, complete_file_operations-begun}
use mathlib.Core.List.{append-nil}

module _ (env : PatchEnv) (w : Workspace) (n : AreNew env w) where
  -- Every check of the steps finds what the preflight has read.
  unfoldable pub IsPassing : List PatchStep → Type 0
  IsPassing [] = Unit {0}
  IsPassing (verify i ∷ l) =
      (option_eq (content_of (w.files i.resolved)) i.before_bytes ≡ true) × IsPassing l
  IsPassing (_ ∷ l) = IsPassing l

  -- The files behind the steps.
  unfoldable pub through : List PatchStep → FileSystem → FileSystem
  through [] fs = fs
  through (commit i ∷ l) fs = through l (put_file fs i.resolved (after_file env true i))
  through (_ ∷ l) fs = through l fs

  abbrev pub HasApplied : List PatchStep → FileSystem → Progress × Bool → Type 0
  HasApplied l fs (s, raised) =
      (raised ≡ false)
      × (s.workspace.files ≡ through l fs)
      × (keep is_started s.workspace.rows ≡ keep is_started w.rows)

  -- A list of steps that ends with the completion.
  unfoldable pub IsWhole : List PatchStep → Type 0
  IsWhole [] = ⊥
  IsWhole (complete_durable ∷ l) = l ≡ []
  IsWhole (_ ∷ l) = IsWhole l

  verify-passes :
      (d : List Text) (i : Item) (s : Progress)
      → IsUnderWay env w d s
      → any (text_eq i.resolved) d ≡ false
      → option_eq (content_of (w.files i.resolved)) i.before_bytes ≡ true
      → perform env true (verify i) s ≡ some s
  unfolding perform
  verify-passes d i s h off k =
      rw (ap (λ o. option_eq (content_of o) i.before_bytes) (h.files_are i.resolved off) ∙ k) refl

  no_row_started :
      (after : FileSystem) (base : List FileOperation) (l : List Text)
      → keep is_started (base ++ map (completed_row env w.files after) l) ≡ keep is_started base
  no_row_started after [] [] = refl
  no_row_started after [] (p ∷ l) = no_row_started after [] l
  no_row_started after (r ∷ base) l = elim (Bool-cases (is_started r)) [
    | inl open_one ↦ rw (open_one, keep) (ap (λ k. r ∷ k) (no_row_started after base l))
    | inr closed ↦ rw (closed, keep) (no_row_started after base l)
  ]

  all_completed :
      (d : List Text) (s : Progress) (h : IsUnderWay env w d s)
      → complete_file_operations env.sha256 s.workspace.rows s.workspace.files s.durable_operations
        ≡ some (w.rows ++ map (completed_row env w.files s.workspace.files) h.begun_paths)
  all_completed d s h =
      ap (λ r. complete_file_operations env.sha256 r s.workspace.files s.durable_operations)
        h.rows_are
      ∙ ap
          (complete_file_operations env.sha256 (w.rows ++ map (begun env w.files) h.begun_paths)
            s.workspace.files)
          h.durable_is
      ∙ complete_file_operations-begun env w.files s.workspace.files w.rows h.begun_paths h.fresh

  complete-null :
      (s : Progress)
      → null s.durable_operations ≡ true
      → perform env true complete_durable s ≡ some s
  unfolding perform
  complete-null s h = rw h refl

  complete-rows :
      (s : Progress) (rows : List FileOperation)
      → null s.durable_operations ≡ false
      → complete_file_operations env.sha256 s.workspace.rows s.workspace.files s.durable_operations
        ≡ some rows
      → perform env true complete_durable s
        ≡ some (record s { workspace = record s.workspace { rows = rows } })
  unfolding perform
  complete-rows s rows h e = rw h (ap (with_rows env true s) e)

  no_paths : (l : List Text) → null (map (operation_of env w.files) l) ≡ true → l ≡ []
  no_paths [] h = refl
  no_paths (p ∷ l) h = ground (arith, h)

  complete-HasApplied :
      (d : List Text) (s : Progress)
      → IsUnderWay env w d s
      → HasApplied
          (complete_durable ∷ [])
          s.workspace.files
          (run env true none (complete_durable ∷ []) s)
  complete-HasApplied d s h = elim (Bool-cases (null s.durable_operations)) [
    | inl nothing ↦
        subst (HasApplied (complete_durable ∷ []) s.workspace.files)
          (sym (
            run-step env true none complete_durable [] s s (unfold is_due in refl)
              (complete-null s nothing)))
          (unfold run through in
            (
              refl,
              refl,
              ap (keep is_started) h.rows_are
                  ∙ ap (λ l. keep is_started (w.rows ++ map (begun env w.files) l))
                      (no_paths h.begun_paths (ap null (sym h.durable_is) ∙ nothing))
                  ∙ ap (keep is_started) (append-nil w.rows),
            ))
    | inr operations ↦
        let rows : List FileOperation =
          w.rows ++ map (completed_row env w.files s.workspace.files) h.begun_paths in
        subst (HasApplied (complete_durable ∷ []) s.workspace.files)
          (sym (
            run-step env true none complete_durable [] s
              (record s { workspace = record s.workspace { rows = rows } }) (unfold is_due in refl)
              (complete-rows s rows operations (all_completed d s h))))
          (unfold run through in
            (refl, refl, no_row_started s.workspace.files w.rows h.begun_paths))
  ]

  pub run-HasApplied :
      (l : List PatchStep) (d : List Text) (s : Progress)
      → IsUnderWay env w d s
      → IsSafe w.journal.blob_limit w.files d l
      → IsPassing l
      → IsWhole l
      → HasApplied l s.workspace.files (run env true none l s)
  unfolding run IsSafe IsPassing IsWhole through perform
  run-HasApplied [] d s h safe k e = absurd e
  run-HasApplied (stage i ∷ l) d s h safe k e = run-HasApplied l d s h safe k e
  run-HasApplied (verify i ∷ l) d s h safe k e =
      subst (HasApplied l s.workspace.files)
        (sym (run-step env true none (verify i) l s s refl (verify-passes d i s h safe.0 k.0)))
        (run-HasApplied l d s h (safe.1 k.0) k.1 e)
  run-HasApplied (begin_durable i ∷ l) d s h safe k e =
      subst (λ fs. HasApplied l fs (run env true none l (begin_operation env true s i.resolved)))
        (ap (λ x. x.workspace.files) (begin_operation_lem env w d s i.resolved h safe.0 safe.1))
        (run-HasApplied l (i.resolved ∷ d) (begin_operation env true s i.resolved)
          (IsUnderWay-begin env w n d s i.resolved h safe.0 safe.1) safe.2 k e)
  run-HasApplied (record_pre i ∷ l) d s h safe k e =
      run-HasApplied l d _ (IsUnderWay-record_pre env w n d s _ i.resolved h refl) safe k e
  run-HasApplied (commit i ∷ l) d s h safe k e =
      run-HasApplied l d _ (IsUnderWay-commit env w d s _ i _ h safe.0 refl) safe.1 k e
  run-HasApplied (sync i ∷ l) d s h safe k e = run-HasApplied l d s h safe k e
  run-HasApplied (record_post i ∷ l) d s h safe k e =
      run-HasApplied l d _ (IsUnderWay-record_post env w n d s _ i.resolved h refl) safe k e
  run-HasApplied (complete_durable ∷ l) d s h safe k e =
      subst
        (λ r.
          HasApplied (complete_durable ∷ r) s.workspace.files
            (run env true none (complete_durable ∷ r) s))
        (sym safe) (complete-HasApplied d s h)
