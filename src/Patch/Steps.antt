-- ===== src/Patch/Steps.antt =====
-- `_apply_patch_locked` (tools/workspace_tools.py): each step of the transaction leaves it in a state
-- from which it can be rolled back.
use noah_code.Prelude.{
  true, false, Option, List, [], ◌∷◌, ◌++◌, map, ◌==◌, ◌≡◌, refl, ap, sym, ◌∙◌, subst, arith, any,
  any-append, All-map,
}
use mathlib.Core.List.{append_assoc, map-append}
use noah_code.Python.Text.{Text, text_eq}
use noah_code.Files.{put_file, File}
use noah_code.Patch.Commit.{PatchEnv, Workspace, Progress, begin_operation, exceeds}
use noah_code.Journal.Calls.{ids_of}
use noah_code.Store.FileOperations.{FileOperation}
use noah_code.Python.Text.Laws.{text_eq_iff}
use noah_code.Patch.UnderWay.{IsUnderWay, other_path}
use noah_code.Patch.Discarded.{
  mutations_in, recorded, record_preimage-having, record_postimage-having, discarded-recorded,
  discarded-postimage,
}
use noah_code.Patch.Restored.{FreshFrom, begun, operation_of}
use noah_code.Journal.Turns.{record_preimage, record_postimage, set_postimage}
use noah_code.Patch.{Item}

module _ (env : PatchEnv) (w : Workspace) where
  -- The uuids that the call draws.
  pub record AreNew : Type 0 where
    pub uuids_differ : (p q : Text) → text_eq (env.new_uuid p) (env.new_uuid q) ≡ text_eq p q
    pub uuids_new : (p : Text) → any (λ r. text_eq r.operation_id (env.new_uuid p)) w.rows ≡ false
    pub mutations_new :
        (p : Text) → any (λ i. env.new_mutation p == i) (ids_of (mutations_in w.journal)) ≡ false

  FreshFrom-last :
      (base : List FileOperation) (l : List Text) (p : Text)
      → FreshFrom env w.files base l
      → any (λ r. text_eq r.operation_id (env.new_uuid p)) base ≡ false
      → any (λ q. text_eq (env.new_uuid q) (env.new_uuid p)) l ≡ false
      → FreshFrom env w.files base (l ++ p ∷ [])
  FreshFrom-last base [] p h k e = (k, tt)
  FreshFrom-last base (q ∷ l) p h k e = (
    h.0,
    FreshFrom-last (base ++ begun env w.files q ∷ []) l p h.1
        (any-append (λ r. text_eq r.operation_id (env.new_uuid p)) base (begun env w.files q ∷ [])
          ∙ ground (arith, k, e))
        (ground (arith, e)),
  )

  other_uuids :
      (n : AreNew) (p : Text) (l : List Text)
      → any (text_eq p) l ≡ false
      → any (λ q. text_eq (env.new_uuid q) (env.new_uuid p)) l ≡ false
  other_uuids n p [] h = refl
  other_uuids n p (q ∷ l) h = ground (
    arith,
    h,
    n.uuids_differ q p,
    text_eq_iff p q,
    text_eq_iff q p,
    other_uuids n p l (ground (arith, h)),
  )

  pub begin_operation_lem :
      (d : List Text) (s : Progress) (p : Text)
      → IsUnderWay env w d s
      → any (text_eq p) d ≡ false
      → exceeds w.journal.blob_limit (w.files p) ≡ false
      → begin_operation env true s p ≡ record s {
        workspace = record s.workspace { rows = s.workspace.rows ++ begun env w.files p ∷ [] };
        durable_operations = s.durable_operations ++ (env.new_uuid p, p) ∷ [];
      }
  unfolding begin_operation
  begin_operation_lem d s p h other small =
      rw (ap (λ j. j.blob_limit) h.journal_is, h.files_are p other, small) refl

  pub IsUnderWay-begin :
      (n : AreNew) (d : List Text) (s : Progress) (p : Text)
      → IsUnderWay env w d s
      → any (text_eq p) d ≡ false
      → exceeds w.journal.blob_limit (w.files p) ≡ false
      → IsUnderWay env w (p ∷ d) (begin_operation env true s p)
  IsUnderWay-begin n d s p h other small =
      subst (IsUnderWay env w (p ∷ d)) (sym (begin_operation_lem d s p h other small)) (record {
        begun_paths = h.begun_paths ++ p ∷ [];
        durable_is =
            ap (λ l. l ++ (env.new_uuid p, p) ∷ []) h.durable_is
            ∙ sym (map-append (operation_of env w.files) h.begun_paths (p ∷ []));
        rows_are =
            ap (λ l. l ++ begun env w.files p ∷ []) h.rows_are
            ∙ append_assoc w.rows (map (begun env w.files) h.begun_paths) (begun env w.files p ∷ [])
            ∙ ap (λ l. w.rows ++ l) (sym (map-append (begun env w.files) h.begun_paths (p ∷ [])));
        fresh =
            FreshFrom-last w.rows h.begun_paths p h.fresh (n.uuids_new p)
              (other_uuids n p h.begun_paths (h.known p ∙ other));
        known = λ q. any-append (text_eq q) h.begun_paths (p ∷ []) ∙ ground (arith, h.known q);
        files_are = λ q k. h.files_are q (ground (arith, k));
        committed_known = All-map s.committed (λ i k. ground (arith, k)) h.committed_known;
        recorded_list = h.recorded_list;
        journal_is = h.journal_is;
        discards = h.discards;
      })

  pub IsUnderWay-record_pre :
      (n : AreNew) (d : List Text) (s s' : Progress) (p : Text)
      → IsUnderWay env w d s
      → s' ≡ record s {
        workspace = record s.workspace {
          journal =
              record_preimage env.sha256 s.workspace.journal s.workspace.files p
                (env.new_mutation p);
        };
        mutations = s.mutations ++ env.new_mutation p ∷ [];
      }
      → IsUnderWay env w d s'
  IsUnderWay-record_pre n d s s' p h e = subst (IsUnderWay env w d) (sym e) (record {
    begun_paths = h.begun_paths;
    durable_is = h.durable_is;
    rows_are = h.rows_are;
    fresh = h.fresh;
    known = h.known;
    files_are = h.files_are;
    committed_known = h.committed_known;
    recorded_list =
        h.recorded_list
        ++ recorded env.sha256 w.journal h.recorded_list s.workspace.files p (env.new_mutation p)
          ∷ [];
    journal_is =
        ap (λ j. record_preimage env.sha256 j s.workspace.files p (env.new_mutation p)) h.journal_is
        ∙ record_preimage-having env.sha256 h.recorded_list w.journal s.workspace.files p
            (env.new_mutation p);
    discards =
        discarded-recorded env.sha256 s.mutations h.recorded_list w.journal s.workspace.files p
          (env.new_mutation p) h.discards (n.mutations_new p);
  })

  pub IsUnderWay-record_post :
      (n : AreNew) (d : List Text) (s s' : Progress) (p : Text)
      → IsUnderWay env w d s
      → s' ≡ record s {
        workspace = record s.workspace {
          journal =
              record_postimage env.sha256 s.workspace.journal s.workspace.files
                (env.new_mutation p);
        };
      }
      → IsUnderWay env w d s'
  IsUnderWay-record_post n d s s' p h e = subst (IsUnderWay env w d) (sym e) (record {
    begun_paths = h.begun_paths;
    durable_is = h.durable_is;
    rows_are = h.rows_are;
    fresh = h.fresh;
    known = h.known;
    files_are = h.files_are;
    committed_known = h.committed_known;
    recorded_list =
        map (set_postimage env.sha256 w.journal s.workspace.files (env.new_mutation p))
          h.recorded_list;
    journal_is =
        ap (λ j. record_postimage env.sha256 j s.workspace.files (env.new_mutation p)) h.journal_is
        ∙ record_postimage-having env.sha256 h.recorded_list w.journal s.workspace.files
            (env.new_mutation p);
    discards =
        discarded-postimage env.sha256 s.mutations h.recorded_list w.journal s.workspace.files
          (env.new_mutation p) h.discards (n.mutations_new p);
  })

  commit_off :
      (d : List Text) (s : Progress) (i : Item) (o : Option File) (p : Text)
      → IsUnderWay env w d s
      → any (text_eq i.resolved) d ≡ true
      → any (text_eq p) d ≡ false
      → put_file s.workspace.files i.resolved o p ≡ w.files p
  commit_off d s i o p h k off = rw (other_path p i.resolved d off k) (h.files_are p off)

  pub IsUnderWay-commit :
      (d : List Text) (s s' : Progress) (i : Item) (o : Option File)
      → IsUnderWay env w d s
      → any (text_eq i.resolved) d ≡ true
      → s' ≡ record s {
        workspace = record s.workspace { files = put_file s.workspace.files i.resolved o };
        committed = i ∷ s.committed;
      }
      → IsUnderWay env w d s'
  IsUnderWay-commit d s s' i o h k e = subst (IsUnderWay env w d) (sym e) (record {
    begun_paths = h.begun_paths;
    durable_is = h.durable_is;
    rows_are = h.rows_are;
    fresh = h.fresh;
    known = h.known;
    files_are = λ p off. commit_off d s i o p h k off;
    committed_known = (k, h.committed_known);
    recorded_list = h.recorded_list;
    journal_is = h.journal_is;
    discards = h.discards;
  })
