-- ===== src/Patch/Restored.antt =====
-- `_apply_patch_locked` (tools/workspace_tools.py): its rollback of what is under way.
use noah_code.Prelude.{
  true, false, none, some, List, [], ◌∷◌, ◌++◌, map, ◌≡◌, refl, ap, sym, ◌∙◌, arith, any,
  Bool-cases, inl, inr, if◌then◌else◌, null,
}
use mathlib.Core.List.{reverse, reverse-cons, append_assoc}
use noah_code.Python.Text.{Text, text_eq}
use noah_code.Python.Text.Laws.{text_eq_iff, text_eq_refl}
use noah_code.Files.{FileSystem, put_file}
use noah_code.Store.Table.{find_row, update_rows}
use noah_code.Store.FileOperations.{
  FileOperation, preimage, started, rolled_back, id_of, is_started, digest, close,
  rollback_file_operation, rolled,
}
use noah_code.Patch.{null}
use noah_code.Patch.Commit.{PatchEnv, rollback_durable}

pub find_row-behind :
    (id : Text) (base l : List FileOperation)
    → any (λ r. text_eq r.operation_id id) base ≡ false
    → find_row id_of id (base ++ l) ≡ find_row id_of id l
find_row-behind id [] l h = refl
find_row-behind id (r ∷ base) l h = ground (arith, h, find_row-behind id base l)

pub update_rows-behind :
    (id : Text) (f : FileOperation → FileOperation) (base l : List FileOperation)
    → any (λ r. text_eq r.operation_id id) base ≡ false
    → update_rows id_of id is_started f (base ++ l) ≡ base ++ update_rows id_of id is_started f l
update_rows-behind id f [] l h = refl
update_rows-behind id f (r ∷ base) l h = elim (Bool-cases (text_eq r.operation_id id)) [
  | inl same ↦ ground (arith, h, same)
  | inr other ↦
      rw other (ap (λ k. r ∷ k) (update_rows-behind id f base l (ground (arith, h, other))))
]

text_eq_other : (p q : Text) → text_eq p q ≡ false → text_eq q p ≡ false
text_eq_other p q h = ground (arith, h, text_eq_iff p q, text_eq_iff q p)

pub find_row-first :
    (id : Text) (l : List FileOperation) (r : FileOperation)
    → text_eq r.operation_id id ≡ true
    → find_row id_of id (r ∷ l) ≡ some r
find_row-first id l r h = rw h refl

pub update_rows-first :
    (id : Text) (f : FileOperation → FileOperation) (l : List FileOperation) (r : FileOperation)
    → text_eq r.operation_id id ≡ true
    → is_started r ≡ true
    → update_rows id_of id is_started f (r ∷ l) ≡ f r ∷ update_rows id_of id is_started f l
update_rows-first id f l r h k = rw (h, k) refl

-- One rollback in the middle of the rows.
rollback_file_operation-found :
    (base l : List FileOperation) (r : FileOperation) (files : FileSystem) (id : Text)
    → any (λ x. text_eq x.operation_id id) base ≡ false
    → text_eq r.operation_id id ≡ true
    → is_started r ≡ true
    → rollback_file_operation (base ++ r ∷ l) files id ≡ (
      base ++ close rolled_back r ∷ update_rows id_of id is_started (close rolled_back) l,
      put_file files r.path (preimage r),
    )
unfolding rollback_file_operation
rollback_file_operation-found base l r files id new same open_one =
    ap (rolled (base ++ r ∷ l) files id)
      (find_row-behind id base (r ∷ l) new ∙ find_row-first id l r same)
    ∙ rw open_one (
        ap (λ rows. (rows, put_file files r.path (preimage r)))
          (update_rows-behind id (close rolled_back) base (r ∷ l) new
            ∙ ap (λ k. base ++ k) (update_rows-first id (close rolled_back) l r same open_one)))

rollback_durable-append :
    (k : List (Text × Text)) (d : Text × Text) (rows : List FileOperation) (files : FileSystem)
    → rollback_durable none (k ++ d ∷ []) rows files ≡ (
        let (rows', files') = rollback_durable none k rows files in
        rollback_file_operation rows' files' d.0)
unfolding rollback_durable
rollback_durable-append [] d rows files = refl
rollback_durable-append (x ∷ k) d rows files =
    let (rows', files') = rollback_file_operation rows files x.0 in
    rollback_durable-append k d rows' files'

module _ (env : PatchEnv) (fs : FileSystem) where
  -- The row that a begin on the path adds.
  abbrev pub begun : Text → FileOperation
  begun p = record {
    operation_id = env.new_uuid p;
    operation_group = if null env.operation_group then env.new_uuid p else env.operation_group;
    path = p;
    existed_before = elim (fs p) [ none ↦ false | some f ↦ true ];
    pre_bytes = elim (fs p) [ none ↦ none | some f ↦ some f.content ];
    pre_mode = elim (fs p) [ none ↦ none | some f ↦ some f.mode ];
    pre_hash = digest env.sha256 (fs p);
    post_hash = none;
    state = started;
    created_at = env.now;
  }

  abbrev pub operation_of : Text → Text × Text
  operation_of p = (env.new_uuid p, p)

  abbrev pub closed : Text → FileOperation
  closed p = close rolled_back (begun p)

  -- No operation has the id of one before it.
  abbrev pub FreshFrom : List FileOperation → List Text → Type 0
  FreshFrom base [] = Unit {0}
  FreshFrom base (p ∷ l) =
      (any (λ r. text_eq r.operation_id (env.new_uuid p)) base ≡ false)
      × FreshFrom (base ++ begun p ∷ []) l

  preimage-begun : (p : Text) → preimage (begun p) ≡ fs p
  preimage-begun p = ground arith

  update_rows-closed :
      (id : Text) (f : FileOperation → FileOperation) (l : List Text)
      → update_rows id_of id is_started f (map closed l) ≡ map closed l
  update_rows-closed id f [] = refl
  update_rows-closed id f (p ∷ l) = ground (arith, update_rows-closed id f l)

  -- What a path holds behind the rollbacks.
  abbrev pub put_back : List Text → FileSystem → FileSystem
  put_back [] files = files
  put_back (p ∷ l) files = put_file (put_back l files) p (fs p)

  pub put_back_at :
      (l : List Text) (files : FileSystem) (p : Text)
      → put_back l files p ≡ (if any (text_eq p) l then fs p else files p)
  put_back_at [] files p = refl
  put_back_at (q ∷ l) files p = elim (Bool-cases (text_eq p q)) [
    | inl same ↦ rw same (ap fs (sym ((text_eq_iff p q).0 same)))
    | inr other ↦ rw other (put_back_at l files p)
  ]

  pub rollback_durable-begun :
      (base : List FileOperation) (l : List Text) (files : FileSystem)
      → FreshFrom base l
      → rollback_durable none (reverse (map operation_of l)) (base ++ map begun l) files
        ≡ (base ++ map closed l, put_back l files)
  rollback_durable-begun base [] files h = unfold rollback_durable in refl
  rollback_durable-begun base (p ∷ l) files h =
      let k : List (Text × Text) = reverse (map operation_of l) in
      ap (λ d. rollback_durable none d (base ++ begun p ∷ map begun l) files)
        (reverse-cons (operation_of p) (map operation_of l))
      ∙ rollback_durable-append k (operation_of p) (base ++ begun p ∷ map begun l) files
      ∙ ap
          (λ r.
            let (rows', files') = rollback_durable none k r files in
            rollback_file_operation rows' files' (env.new_uuid p))
          (sym (append_assoc base (begun p ∷ []) (map begun l)))
      ∙ ap (λ x. let (rows', files') = x in rollback_file_operation rows' files' (env.new_uuid p))
          (rollback_durable-begun (base ++ begun p ∷ []) l files h.1)
      ∙ ap (λ r. rollback_file_operation r (put_back l files) (env.new_uuid p))
          (append_assoc base (begun p ∷ []) (map closed l))
      ∙ rollback_file_operation-found base (map closed l) (begun p) (put_back l files)
          (env.new_uuid p) h.0 (text_eq_refl (env.new_uuid p)) refl
      ∙ ap (λ r. (base ++ closed p ∷ r, put_file (put_back l files) p (preimage (begun p))))
          (update_rows-closed (env.new_uuid p) (close rolled_back) l)
      ∙ ap (λ o. (base ++ closed p ∷ map closed l, put_file (put_back l files) p o))
          (preimage-begun p)
