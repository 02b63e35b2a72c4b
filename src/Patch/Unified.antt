-- ===== src/Patch/Unified.antt =====
-- `apply_unified_diff` (tools/workspace_tools.py): a diff is turned into a patch.
use noah_code.Prelude.{
  ℕ, Bool, ◌||◌, Option, none, some, List, [], ◌∷◌, ltb, length, null, if◌then◌else◌,
}
use noah_code.Python.Text.{Text, strip, has}
use noah_code.Files.{Bytes, File, FileSystem}
use noah_code.Diff.{FileDiff, DiffError}
use noah_code.Diff.Sections.{Parsed, parse_unified_diff}
use noah_code.Diff.Sections
use noah_code.Diff.Apply.{materialize_change}
use noah_code.Patch.{PatchInputs, Change, PatchError}
use noah_code.Patch.Commit.{PatchEnv, Workspace, apply_patch, RollbackFaults}

-- What a raised error says of.
pub data UnifiedError : Type 0 where
  no_diff_text : UnifiedError
  of_diff : DiffError → UnifiedError
  of_patch : PatchError → UnifiedError
  not_authorized cannot_read unsupported not_text : Text → UnifiedError

pub data Made {ℓ} (A : Type ℓ) : Type ℓ where
  raised : UnifiedError → Made A
  gives : A → Made A

abbrev pub then_on {ℓ κ} : {A : Type ℓ} {B : Type κ} → Made A → (A → Made B) → Made B
then_on (raised e) f = raised e
then_on (gives x) f = f x

abbrev of_parsed {ℓ} : {A : Type ℓ} → Parsed A → Made A
of_parsed (Sections.failed e) = raised (of_diff e)
of_parsed (Sections.parsed x) = gives x

abbrev patched : Option PatchError × Workspace → Option UnifiedError × Workspace
patched (none, w) = (none, w)
patched (some e, w) = (some (of_patch e), w)

module _ (authorize : Text → Option Text) (decode : Bytes → Option Text) (limit : ℕ)
    (fs : FileSystem) where
  -- The text of a target that is there.
  unfoldable pub read_current : Text → Option File → Made (Option Text)
  read_current path none = raised (cannot_read path)
  read_current path (some f) =
      if has 0 f.content || ltb limit (length f.content)
      then raised (unsupported path)
      else elim (decode f.content) [ none ↦ raised (not_text path) | some t ↦ gives (some t) ]

  -- One round of the loop over the parsed files.
  unfoldable pub to_change : FileDiff → Made Change
  unfolding read_current materialize_change
  to_change f = elim (authorize f.path) [
    | none ↦ raised (not_authorized f.path)
    | some resolved ↦
        then_on (if f.is_create then gives none else read_current f.path (fs resolved)) (λ current.
          then_on (of_parsed (materialize_change f current))
            (λ d. gives (record { path = resolved; old = d.old; new = d.new })))
  ]

  unfoldable pub to_changes : List FileDiff → Made (List Change)
  unfolding to_change
  to_changes [] = gives []
  to_changes (f ∷ l) =
      then_on (to_change f) (λ c. then_on (to_changes l) (λ rest. gives (c ∷ rest)))

module _ (inputs : PatchInputs) (env : PatchEnv) (has_runtime : Bool) where
  -- The faults are those of `apply_patch`.
  unfoldable pub apply_unified_diff :
      Option ℕ → RollbackFaults → FileSystem → Text → Workspace → Option UnifiedError × Workspace
  unfolding strip parse_unified_diff to_changes apply_patch
  apply_unified_diff fault back seen diff_text w =
      if null (strip diff_text)
      then (some no_diff_text, w)
      else elim (then_on (of_parsed (parse_unified_diff diff_text))
          (to_changes inputs.authorize inputs.decode w.journal.blob_limit seen)) [
            | raised e ↦ (some e, w)
            | gives changes ↦ patched (apply_patch inputs env has_runtime fault back seen changes w)
          ]
