-- ===== src/Patch/Failing.antt =====
-- `_apply_patch_locked` (tools/workspace_tools.py): the transaction, of which any step may fail.
use noah_code.Prelude.{
  ℕ, Bool, true, false, Option, none, some, List, [], ◌∷◌, ◌≡◌, refl, ap, sym, ◌∙◌, subst, arith,
  Bool-cases, inl, inr,
}
use noah_code.Python.Text.{Text}
use noah_code.Patch.{Item, content_of}
use noah_code.Patch.Commit.{
  PatchEnv, Workspace, Progress, PatchStep, perform, run, begin_operation, is_due, roll_back,
  one_less, complete_durable, verify, stage, begin_durable, record_pre, commit, sync, record_post,
  RollbackFaults,
}
use noah_code.Patch.UnderWay.{IsRestored, IsUnderWay, roll_back-IsRestored}
use noah_code.Patch.Steps.{
  AreNew, IsUnderWay-begin, IsUnderWay-record_pre, IsUnderWay-commit, IsUnderWay-record_post,
}
use noah_code.Patch.Order.{IsSafe}
use noah_code.Journal.{option_eq}

module _ (env : PatchEnv) (has_runtime : Bool) where
  run-due :
      (fault : Option ℕ) (a : PatchStep) (l : List PatchStep) (s : Progress)
      → is_due fault ≡ true
      → run env has_runtime fault (a ∷ l) s ≡ (s, true)
  unfolding run
  run-due fault a l s h = rw (h, run) refl

  pub run-refused :
      (fault : Option ℕ) (a : PatchStep) (l : List PatchStep) (s : Progress)
      → is_due fault ≡ false
      → perform env has_runtime a s ≡ none
      → run env has_runtime fault (a ∷ l) s ≡ (s, true)
  unfolding run
  run-refused fault a l s h k = rw (h, k, run) refl

  pub run-step :
      (fault : Option ℕ) (a : PatchStep) (l : List PatchStep) (s s' : Progress)
      → is_due fault ≡ false
      → perform env has_runtime a s ≡ some s'
      → run env has_runtime fault (a ∷ l) s ≡ run env has_runtime (one_less fault) l s'
  unfolding run
  run-step fault a l s s' h k = rw (h, k, run) refl

module _ (env : PatchEnv) (w : Workspace) where
  -- What a rollback leaves, with the paths whose operations it closed.
  pub record WasRestored (w' : Workspace) : Type 0 where
    pub closed_paths : List Text
    pub restored : IsRestored env w w' closed_paths

  from_here :
      (back : RollbackFaults) (d : List Text) (s : Progress)
      → back.of_store ≡ none
      → IsUnderWay env w d s
      → WasRestored (roll_back back s)
  from_here back d s works h = record {
    closed_paths = h.begun_paths;
    restored = roll_back-IsRestored env w back d s h works;
  }

  abbrev pub AfterRun : RollbackFaults → Progress × Bool → Type 0
  AfterRun back (s, raised) = raised ≡ true → WasRestored (roll_back back s)

  module _ (n : AreNew env w) (back : RollbackFaults) (works : back.of_store ≡ none)
      (fault : Option ℕ) where
    abbrev Continues : List PatchStep → Type 0
    Continues l =
        (d : List Text) (s : Progress)
        → IsUnderWay env w d s
        → IsSafe w.journal.blob_limit w.files d l
        → AfterRun back (run env true (one_less fault) l s)

    verify-AfterRun :
        (i : Item) (l : List PatchStep) (d : List Text) (s : Progress)
        → is_due fault ≡ false
        → IsUnderWay env w d s
        → IsSafe w.journal.blob_limit w.files d (verify i ∷ l)
        → Continues l
        → AfterRun back (run env true fault (verify i ∷ l) s)
    unfolding IsSafe perform
    verify-AfterRun i l d s later h safe k =
        elim (Bool-cases (option_eq (content_of (s.workspace.files i.resolved)) i.before_bytes)) [
          | inl same ↦
              subst (AfterRun back)
                (sym (run-step env true fault (verify i) l s s later (rw same refl)))
                (k d s h (
                  safe.1 (
                    ap (λ o. option_eq (content_of o) i.before_bytes)
                      (sym (h.files_are i.resolved safe.0))
                    ∙ same)))
          | inr changed ↦
              subst (AfterRun back)
                (sym (run-refused env true fault (verify i) l s later (rw changed refl)))
                (λ e. from_here back d s works h)
        ]

    complete-AfterRun :
        (o : Option Progress) (d : List Text) (s : Progress)
        → is_due fault ≡ false
        → perform env true complete_durable s ≡ o
        → IsUnderWay env w d s
        → AfterRun back (run env true fault (complete_durable ∷ []) s)
    complete-AfterRun none d s later e h =
        subst (AfterRun back) (sym (run-refused env true fault complete_durable [] s later e))
          (λ r. from_here back d s works h)
    complete-AfterRun (some s') d s later e h =
        subst (AfterRun back) (sym (run-step env true fault complete_durable [] s s' later e))
          (unfold run in λ r. ground (arith, r))

    step-AfterRun :
        (a : PatchStep) (l : List PatchStep) (d : List Text) (s : Progress)
        → is_due fault ≡ false
        → IsUnderWay env w d s
        → IsSafe w.journal.blob_limit w.files d (a ∷ l)
        → Continues l
        → AfterRun back (run env true fault (a ∷ l) s)
    unfolding IsSafe perform
    step-AfterRun (stage i) l d s later h safe k =
        subst (AfterRun back) (sym (run-step env true fault (stage i) l s s later refl))
          (k d s h safe)
    step-AfterRun (verify i) l d s later h safe k = verify-AfterRun i l d s later h safe k
    step-AfterRun (begin_durable i) l d s later h safe k =
        subst (AfterRun back)
          (sym (
            run-step env true fault (begin_durable i) l s (begin_operation env true s i.resolved)
              later refl))
          (k (i.resolved ∷ d) (begin_operation env true s i.resolved)
            (IsUnderWay-begin env w n d s i.resolved h safe.0 safe.1) safe.2)
    step-AfterRun (record_pre i) l d s later h safe k =
        subst (AfterRun back) (sym (run-step env true fault (record_pre i) l s _ later refl))
          (k d _ (IsUnderWay-record_pre env w n d s _ i.resolved h refl) safe)
    step-AfterRun (commit i) l d s later h safe k =
        subst (AfterRun back) (sym (run-step env true fault (commit i) l s _ later refl))
          (k d _ (IsUnderWay-commit env w d s _ i _ h safe.0 refl) safe.1)
    step-AfterRun (sync i) l d s later h safe k =
        subst (AfterRun back) (sym (run-step env true fault (sync i) l s s later refl))
          (k d s h safe)
    step-AfterRun (record_post i) l d s later h safe k =
        subst (AfterRun back) (sym (run-step env true fault (record_post i) l s _ later refl))
          (k d _ (IsUnderWay-record_post env w n d s _ i.resolved h refl) safe)
    step-AfterRun complete_durable l d s later h safe k =
        subst (λ r. AfterRun back (run env true fault (complete_durable ∷ r) s)) (sym safe)
          (complete-AfterRun (perform env true complete_durable s) d s later refl h)

  -- Whichever step fails, the rollback restores what was there.
  pub run-WasRestored :
      (n : AreNew env w) (back : RollbackFaults) (works : back.of_store ≡ none) (fault : Option ℕ)
      (l : List PatchStep) (d : List Text) (s : Progress)
      → IsUnderWay env w d s
      → IsSafe w.journal.blob_limit w.files d l
      → AfterRun back (run env true fault l s)
  run-WasRestored n back works fault [] d s h safe = unfold run in λ e. ground (arith, e)
  run-WasRestored n back works fault (a ∷ l) d s h safe = elim (Bool-cases (is_due fault)) [
    | inl due ↦
        subst (AfterRun back) (sym (run-due env true fault a l s due))
          (λ e. from_here back d s works h)
    | inr later ↦
        step-AfterRun n back works fault a l d s later h safe
          (λ d' s' h' safe'. run-WasRestored n back works (one_less fault) l d' s' h' safe')
  ]
