-- ===== src/Patch/UnderWay.antt =====
-- `_apply_patch_locked` (tools/workspace_tools.py): what holds between two steps of the transaction,
-- and why its rollback restores everything.
use noah_code.Prelude.{
  ℕ, true, false, Option, none, some, List, [], ◌∷◌, ◌++◌, map, ◌≡◌, refl, ap, ◌∙◌, arith, any, All,
  All-map, Bool-cases, inl, inr, suc,
}
use mathlib.Core.List.{reverse}
use noah_code.Python.Text.{Text, text_eq}
use noah_code.Python.Text.Laws.{text_eq_iff}
use noah_code.Files.{FileSystem, put_file}
use noah_code.Journal.{FileMutation, written}
use noah_code.Patch.{Item}
use noah_code.Patch.Commit.{
  PatchEnv, Workspace, Progress, restore, discard_all, rollback_durable, roll_back, RollbackFaults,
}
use noah_code.Patch.Restored.{
  begun, operation_of, closed, FreshFrom, rollback_durable-begun, put_back, put_back_at,
}
use noah_code.Patch.Discarded.{discarded, mutations_in, having, discard_all-restores}
use Prim.Native.Nat.{zero}

restore-other :
    (fault : Option ℕ) (l : List Item) (fs : FileSystem) (p : Text)
    → All (λ i. text_eq p i.resolved ≡ false) l
    → restore fault l fs p ≡ fs p
unfolding restore
restore-other fault [] fs p h = refl
restore-other (some zero) (i ∷ l) fs p h = refl
restore-other (some (suc n)) (i ∷ l) fs p h =
    restore-other (some n) l (put_file fs i.resolved (written i.before_bytes i.mode)) p h.1
    ∙ rw h.0 refl
restore-other none (i ∷ l) fs p h =
    restore-other none l (put_file fs i.resolved (written i.before_bytes i.mode)) p h.1
    ∙ rw h.0 refl

pub other_path :
    (p q : Text) (d : List Text)
    → any (text_eq p) d ≡ false
    → any (text_eq q) d ≡ true
    → text_eq p q ≡ false
other_path p q d h k = elim (Bool-cases (text_eq p q)) [
  | inl same ↦ ground (arith, h, k, ap (λ x. any (text_eq x) d) ((text_eq_iff p q).0 same))
  | inr other ↦ other
]

module _ (env : PatchEnv) (w : Workspace) where
  -- `d` are the paths with a started operation.
  pub record IsUnderWay (d : List Text) (s : Progress) : Type 0 where
    pub begun_paths : List Text
    pub durable_is : s.durable_operations ≡ map (operation_of env w.files) begun_paths
    pub rows_are : s.workspace.rows ≡ w.rows ++ map (begun env w.files) begun_paths
    pub fresh : FreshFrom env w.files w.rows begun_paths
    pub known : (p : Text) → any (text_eq p) begun_paths ≡ any (text_eq p) d
    pub files_are : (p : Text) → any (text_eq p) d ≡ false → s.workspace.files p ≡ w.files p
    pub committed_known : All (λ i. any (text_eq i.resolved) d ≡ true) s.committed
    pub recorded_list : List FileMutation
    pub journal_is : s.workspace.journal ≡ having recorded_list w.journal
    pub discards : discarded s.mutations recorded_list ≡ mutations_in w.journal

  -- Everything is as before, but for rows of operations that were rolled back.
  abbrev pub IsRestored : Workspace → List Text → Type 0
  IsRestored w' l =
      ((p : Text) → w'.files p ≡ w.files p)
      × (w'.journal ≡ w.journal)
      × (w'.rows ≡ w.rows ++ map (closed env w.files) l)

  restored_files :
      (fault : Option ℕ) (d : List Text) (s : Progress) (h : IsUnderWay d s) (p : Text)
      → put_back env w.files h.begun_paths (restore fault s.committed s.workspace.files) p
        ≡ w.files p
  restored_files fault d s h p =
      put_back_at env w.files h.begun_paths (restore fault s.committed s.workspace.files) p
      ∙ elim (Bool-cases (any (text_eq p) d)) [
        | inl in_it ↦ rw (h.known p, in_it) refl
        | inr other ↦
            rw (h.known p, other)
              (restore-other fault s.committed s.workspace.files p
                  (All-map s.committed (λ i k. other_path p i.resolved d other k) h.committed_known)
                ∙ h.files_are p other)
      ]

  rolled_back_durable :
      (d : List Text) (s : Progress) (h : IsUnderWay d s) (files : FileSystem)
      → rollback_durable none (reverse s.durable_operations) s.workspace.rows files ≡ (
        w.rows ++ map (closed env w.files) h.begun_paths,
        put_back env w.files h.begun_paths files,
      )
  rolled_back_durable d s h files =
      ap (λ l. rollback_durable none (reverse l) s.workspace.rows files) h.durable_is
      ∙ ap
          (λ r.
            rollback_durable none (reverse (map (operation_of env w.files) h.begun_paths)) r files)
          h.rows_are
      ∙ rollback_durable-begun env w.files w.rows h.begun_paths files h.fresh

  pub roll_back-IsRestored :
      (fault : RollbackFaults) (d : List Text) (s : Progress) (h : IsUnderWay d s)
      → fault.of_store ≡ none
      → IsRestored (roll_back fault s) h.begun_paths
  unfolding roll_back
  roll_back-IsRestored fault d s h works =
      let files : FileSystem = restore fault.of_write s.committed s.workspace.files in
      let e =
        ap (λ o. rollback_durable o (reverse s.durable_operations) s.workspace.rows files) works
        ∙ rolled_back_durable d s h files in
      (
        λ p. ap (λ x. x.1 p) e ∙ restored_files fault.of_write d s h p,
        ap (discard_all s.mutations) h.journal_is
            ∙ discard_all-restores s.mutations h.recorded_list w.journal h.discards,
        ap (λ x. x.0) e,
      )
