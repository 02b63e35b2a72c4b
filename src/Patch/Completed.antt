-- ===== src/Patch/Completed.antt =====
-- `complete_file_operations` (runtime_state.py) behind a patch: every operation is completed.
use noah_code.Prelude.{
  true, ◌||◌, none, some, List, [], ◌∷◌, ◌++◌, map, ◌≡◌, refl, ap, sym, ◌∙◌, arith, any, any-append,
  Bool-cases, inl, inr, if◌then◌else◌,
}
use mathlib.Core.List.{append_assoc}
use noah_code.Python.Text.{Text, text_eq}
use noah_code.Files.{FileSystem}
use noah_code.Store.FileOperations.{
  FileOperation, complete_file_operation, complete_file_operations, commit, is_started, id_of,
  digest,
}
use noah_code.Patch.Commit.{PatchEnv}
use noah_code.Patch.Restored.{
  begun, operation_of, FreshFrom, find_row-behind, find_row-first, update_rows-behind,
  update_rows-first,
}
use noah_code.Store.Table.{update_rows, find_row}
use noah_code.Python.Text.Laws.{text_eq_iff, text_eq_refl}

module _ (env : PatchEnv) (before after : FileSystem) where
  -- The row of a completed operation on the path.
  abbrev pub completed_row : Text → FileOperation
  completed_row p = commit env.sha256 (digest env.sha256 (after p)) (begun env before p)

  FreshFrom-ids :
      (b b' : List FileOperation) (l : List Text)
      → ((x : Text)
          → any (λ r. text_eq r.operation_id x) b ≡ any (λ r. text_eq r.operation_id x) b')
      → FreshFrom env before b l
      → FreshFrom env before b' l
  FreshFrom-ids b b' [] e h = tt
  FreshFrom-ids b b' (p ∷ l) e h = (
    sym (e (env.new_uuid p)) ∙ h.0,
    FreshFrom-ids (b ++ begun env before p ∷ []) (b' ++ begun env before p ∷ []) l
        (λ x.
          any-append (λ r. text_eq r.operation_id x) b (begun env before p ∷ [])
          ∙ ap (λ t. t || any (λ r. text_eq r.operation_id x) (begun env before p ∷ [])) (e x)
          ∙ sym (any-append (λ r. text_eq r.operation_id x) b' (begun env before p ∷ [])))
        h.1,
  )

  -- An operation of the base is not updated under the id of a later one.
  others_keep :
      (p : Text) (f : FileOperation → FileOperation) (base : List FileOperation) (l : List Text)
      → any (λ r. text_eq r.operation_id (env.new_uuid p)) base ≡ true
      → FreshFrom env before base l
      → update_rows id_of (env.new_uuid p) is_started f (map (begun env before) l)
        ≡ map (begun env before) l
  others_keep p f base [] k h = refl
  others_keep p f base (q ∷ l) k h = elim (Bool-cases (text_eq (env.new_uuid q) (env.new_uuid p))) [
    | inl same ↦ ground (
      arith,
      k,
      h.0,
      ap (λ x. any (λ r. text_eq r.operation_id x) base)
          ((text_eq_iff (env.new_uuid q) (env.new_uuid p)).0 same),
    )
    | inr other ↦ rw other (
        ap (λ r. begun env before q ∷ r)
          (others_keep p f (base ++ begun env before q ∷ []) l
            (any-append (λ r. text_eq r.operation_id (env.new_uuid p)) base
                (begun env before q ∷ [])
              ∙ ground (arith, k))
            h.1))
  ]

  complete_found :
      (rows : List FileOperation) (fs : FileSystem) (id p : Text) (r : FileOperation)
      → find_row id_of id rows ≡ some r
      → is_started r ≡ true
      → complete_file_operation env.sha256 rows fs id p
        ≡ some (update_rows id_of id is_started (commit env.sha256 (digest env.sha256 (fs p))) rows)
  unfolding complete_file_operation
  complete_found rows fs id p r e k =
      let rows' : List FileOperation =
        update_rows id_of id is_started (commit env.sha256 (digest env.sha256 (fs p))) rows in
      ap (λ o. elim o [ none ↦ none | some x ↦ if is_started x then some rows' else none ]) e
      ∙ rw k refl

  complete_file_operation-begun :
      (base : List FileOperation) (p : Text) (l : List Text)
      → FreshFrom env before base (p ∷ l)
      → complete_file_operation env.sha256
          (base ++ begun env before p ∷ map (begun env before) l)
          after
          (env.new_uuid p)
          p
        ≡ some (base ++ completed_row p ∷ map (begun env before) l)
  complete_file_operation-begun base p l h =
      let f : FileOperation → FileOperation = commit env.sha256 (digest env.sha256 (after p)) in
      complete_found (base ++ begun env before p ∷ map (begun env before) l) after (env.new_uuid p)
        p (begun env before p)
        (find_row-behind (env.new_uuid p) base (begun env before p ∷ map (begun env before) l) h.0
          ∙ find_row-first (env.new_uuid p) (map (begun env before) l) (begun env before p)
              (text_eq_refl (env.new_uuid p)))
        refl
      ∙ ap some (
          update_rows-behind (env.new_uuid p) f base (begun env before p ∷ map (begun env before) l)
            h.0
          ∙ ap (λ r. base ++ r)
              (update_rows-first (env.new_uuid p) f (map (begun env before) l) (begun env before p)
                (text_eq_refl (env.new_uuid p)) refl)
          ∙ ap (λ r. base ++ completed_row p ∷ r)
              (others_keep p f (base ++ begun env before p ∷ []) l
                (any-append (λ r. text_eq r.operation_id (env.new_uuid p)) base
                    (begun env before p ∷ [])
                  ∙ ground (arith, text_eq_refl (env.new_uuid p)))
                h.1))

  pub complete_file_operations-begun :
      (base : List FileOperation) (l : List Text)
      → FreshFrom env before base l
      → complete_file_operations env.sha256
          (base ++ map (begun env before) l)
          after
          (map (operation_of env before) l)
        ≡ some (base ++ map completed_row l)
  unfolding complete_file_operations
  complete_file_operations-begun base [] h = refl
  complete_file_operations-begun base (p ∷ l) h =
      ap
        (λ o. elim o [
          | none ↦ none
          | some rows ↦
              complete_file_operations env.sha256 rows after (map (operation_of env before) l)
        ])
        (complete_file_operation-begun base p l h)
      ∙ ap
          (λ rows. complete_file_operations env.sha256 rows after (map (operation_of env before) l))
          (sym (append_assoc base (completed_row p ∷ []) (map (begun env before) l)))
      ∙ complete_file_operations-begun (base ++ completed_row p ∷ []) l (
          FreshFrom-ids (base ++ begun env before p ∷ []) (base ++ completed_row p ∷ []) l
            (λ x.
              any-append (λ r. text_eq r.operation_id x) base (begun env before p ∷ [])
              ∙ sym (any-append (λ r. text_eq r.operation_id x) base (completed_row p ∷ [])))
            h.1)
      ∙ ap some (append_assoc base (completed_row p ∷ []) (map completed_row l))
