-- ===== src/Patch/Applies.antt =====
-- `apply_patch` (tools/workspace_tools.py) applies every patch that passes its checks.
use noah_code.Prelude.{
  Bool, true, false, Option, none, some, List, [], ◌∷◌, ◌++◌, map, ◌≡◌, refl, ap, sym, ◌∙◌, subst,
  arith, any, collect, All, All-map, keep,
}
use noah_code.Python.Text.{Text, text_eq}
use noah_code.Files.{FileSystem, put_file, put_file_self}
use noah_code.Journal.{option_eq}
use noah_code.Patch.{PatchInputs, Change, PatchError, failed, ok, Item, content_of, preflight}
use noah_code.Patch.Commit.{
  PatchEnv, Workspace, Progress, PatchStep, stage, verify, begin_durable, record_pre, commit, sync,
  record_post, complete_durable, after_file, started_with, transaction, patch_result, apply_patch,
  plan, RollbackFaults,
}
use noah_code.Patch.Guarded.{DistinctFrom, paths, IsReady, Holds, preflight-IsReady}
use noah_code.Python.Text.Laws.{text_eq_refl, text_eq_iff}
use noah_code.Patch.UnderWay.{other_path}
use noah_code.Patch.Steps.{AreNew}
use noah_code.Patch.Applied.{IsPassing, HasApplied, run-HasApplied, IsWhole, through}
use noah_code.Store.FileOperations.{is_started}
use noah_code.Patch.Atomic.{started-IsUnderWay}
use noah_code.Patch.Order.{plan-IsSafe}

option_eq_refl : (o : Option Text) → option_eq o o ≡ true
option_eq_refl none = refl
option_eq_refl (some t) = text_eq_refl t

-- What was seen does not come again.
not_again :
    (p : Text) (seen l : List Text)
    → DistinctFrom seen l
    → any (text_eq p) seen ≡ true
    → any (text_eq p) l ≡ false
not_again p seen [] h k = refl
not_again p seen (q ∷ l) h k = ground (
  arith,
  other_path q p seen h.0 k,
  text_eq_iff p q,
  text_eq_iff q p,
  not_again p (q ∷ seen) l h.1 (ground (arith, k)),
)

module _ (env : PatchEnv) (w : Workspace) (n : AreNew env w) where
  -- The files behind the commits.
  abbrev commit_all : List Item → FileSystem → FileSystem
  commit_all [] fs = fs
  commit_all (i ∷ l) fs = commit_all l (put_file fs i.resolved (after_file env true i))

  abbrev Leads : List PatchStep → FileSystem → FileSystem → Type 0
  Leads l fs fs' = IsPassing env w n l × IsWhole env w n l × (through env w n l fs ≡ fs')

  Leads-map :
      (f : Item → PatchStep) (items : List Item) (rest : List PatchStep) (fs fs' : FileSystem)
      → ((i : Item) (l : List PatchStep) → Leads l fs fs' → Leads (f i ∷ l) fs fs')
      → Leads rest fs fs'
      → Leads (map f items ++ rest) fs fs'
  Leads-map f [] rest fs fs' k h = h
  Leads-map f (i ∷ items) rest fs fs' k h =
      k i (map f items ++ rest) (Leads-map f items rest fs fs' k h)

  Leads-verify :
      (items : List Item) (rest : List PatchStep) (fs fs' : FileSystem)
      → All (λ i. i.before_bytes ≡ content_of (w.files i.resolved)) items
      → Leads rest fs fs'
      → Leads (map verify items ++ rest) fs fs'
  unfolding IsPassing IsWhole through
  Leads-verify [] rest fs fs' k h = h
  Leads-verify (i ∷ items) rest fs fs' k h =
      let tail = Leads-verify items rest fs fs' k.1 h in
      (
        (
          ap (option_eq (content_of (w.files i.resolved))) k.0
              ∙ option_eq_refl (content_of (w.files i.resolved)),
          tail.0,
        ),
        tail.1,
        tail.2,
      )

  Leads-commit :
      (items : List Item) (rest : List PatchStep) (fs fs' : FileSystem)
      → Leads rest (commit_all items fs) fs'
      → Leads (collect (λ i. commit i ∷ sync i ∷ []) items ++ rest) fs fs'
  unfolding IsPassing IsWhole through
  Leads-commit [] rest fs fs' h = h
  Leads-commit (i ∷ items) rest fs fs' h =
      Leads-commit items rest (put_file fs i.resolved (after_file env true i)) fs' h

  Leads-complete : (fs : FileSystem) → Leads (complete_durable ∷ []) fs fs
  unfolding IsPassing IsWhole through
  Leads-complete fs = (tt, refl, refl)

  Leads-plan :
      (items : List Item) (fs : FileSystem)
      → All (λ i. i.before_bytes ≡ content_of (w.files i.resolved)) items
      → Leads (plan items) fs (commit_all items fs)
  unfolding plan
  Leads-plan items fs h =
      let fs' : FileSystem = commit_all items fs in
      Leads-map stage items _ fs fs' (λ i l k. unfold IsPassing IsWhole through in k)
        (Leads-verify items _ fs fs' h (
          Leads-map begin_durable items _ fs fs' (λ i l k. unfold IsPassing IsWhole through in k)
            (Leads-map record_pre items _ fs fs' (λ i l k. unfold IsPassing IsWhole through in k)
              (Leads-commit items _ fs fs' (
                Leads-map record_post items _ fs' fs'
                  (λ i l k. unfold IsPassing IsWhole through in k) (Leads-complete fs'))))))

  commit_all-other :
      (items : List Item) (fs : FileSystem) (p : Text)
      → any (text_eq p) (paths items) ≡ false
      → commit_all items fs p ≡ fs p
  commit_all-other [] fs p h = refl
  commit_all-other (i ∷ l) fs p h =
      commit_all-other l (put_file fs i.resolved (after_file env true i)) p (ground (arith, h))
      ∙ ground (arith, h)

  commit_all-own :
      (items : List Item) (fs : FileSystem) (seen : List Text)
      → DistinctFrom seen (paths items)
      → All (λ i. commit_all items fs i.resolved ≡ after_file env true i) items
  commit_all-own [] fs seen h = tt
  commit_all-own (i ∷ l) fs seen h = (
    commit_all-other l (put_file fs i.resolved (after_file env true i)) i.resolved (
          not_again i.resolved (i.resolved ∷ seen) (paths l) h.1
            (ground (arith, text_eq_refl i.resolved)))
        ∙ put_file_self fs i.resolved (after_file env true i),
    commit_all-own l (put_file fs i.resolved (after_file env true i)) (i.resolved ∷ seen) h.1,
  )

module _ (inputs : PatchInputs) (env : PatchEnv) (w : Workspace) (n : AreNew env w) where
  -- What a patch promises of the workspace behind it.
  pub record IsApplied (items : List Item) (r : Option PatchError × Workspace) : Type 0 where
    pub no_error : r.0 ≡ none
    pub targets_hold : All (λ i. r.1.files i.resolved ≡ after_file env true i) items
    pub others_hold : (p : Text) → any (text_eq p) (paths items) ≡ false → r.1.files p ≡ w.files p
    pub started_as_before : keep is_started r.1.rows ≡ keep is_started w.rows

  patch_result-IsApplied :
      (back : RollbackFaults) (items : List Item) (r : Progress × Bool)
      → IsReady w.journal.blob_limit w.files items
      → HasApplied env w n (plan items) w.files r
      → IsApplied items (patch_result inputs env true back r)
  patch_result-IsApplied back items (s, true) ready h = absurd (ground (arith, h.0))
  patch_result-IsApplied back items (s, false) ready h =
      let e : s.workspace.files ≡ commit_all env w n items w.files =
        h.1 ∙ (Leads-plan env w n items w.files (All-map items (λ i k. k.1) ready.1)).2 in
      record {
        no_error = refl;
        targets_hold =
            All-map items (λ i k. ap (λ fs. fs i.resolved) e ∙ k)
              (commit_all-own env w n items w.files [] ready.0);
        others_hold = λ p off. ap (λ fs. fs p) e ∙ commit_all-other env w n items w.files p off;
        started_as_before = h.2;
      }

  -- Where the runtime store is there, the checks of a patch succeed on the files as they are, the uuids
  -- are new and no step raises an error, it ends without an error: every target holds what its change
  -- says, every other file is as it was, and the rows of started operations in the table of the runtime
  -- store are those from before.
  pub apply_patch-IsApplied :
      (back : RollbackFaults) (changes : List Change) (items : List Item)
      → preflight inputs w.journal.blob_limit w.files changes ≡ ok items
      → IsApplied items (apply_patch inputs env true none back w.files changes w)
  unfolding apply_patch
  apply_patch-IsApplied back changes items h =
      let ready : IsReady w.journal.blob_limit w.files items =
        subst (Holds (IsReady w.journal.blob_limit w.files)) h
          (preflight-IsReady inputs w.journal.blob_limit w.files changes) in
      let leads = Leads-plan env w n items w.files (All-map items (λ i k. k.1) ready.1) in
      subst
        (λ c. IsApplied items (elim c [
          | failed e ↦ (some e, w)
          | ok l ↦ patch_result inputs env true back (transaction inputs env true none l w)
        ]))
        (sym h)
        (patch_result-IsApplied back items (transaction inputs env true none items w) ready (
          run-HasApplied env w n (plan items) [] (started_with w)
            (started-IsUnderWay inputs env w n)
            (plan-IsSafe w.journal.blob_limit w.files w.files items ready) leads.0 leads.1))
