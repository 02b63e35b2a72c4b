-- ===== src/Patch.antt =====
-- `apply_patch` (tools/workspace_tools.py): what it checks before any file changes.
pub mod Commit
pub mod Guarded
pub mod Order
pub mod Restored
pub mod Discarded
pub mod UnderWay
pub mod Steps
pub mod Failing
pub mod Completed
pub mod Applied
pub mod Applies
pub mod Unified
pub mod Whole
pub mod Atomic
mod Tests
use noah_code.Prelude.{
  ℕ, zero, suc, Bool, true, false, ◌&&◌, ◌||◌, not, Option, none, some, List, [], ◌∷◌, ◌==◌, ltb,
  if◌then◌else◌, null, length, any,
}
use noah_code.Python.Text.{Text, text_eq, codes, strip, lower, ends_with, has}
use noah_code.Python.FilePath.{name}
use noah_code.Files.{Bytes, File, FileSystem}
use noah_code.Edits.{count, replace_first}
use noah_code.Diff.{Operation, add, update, delete}

-- The authorization of a path, the UTF-8 codec, and whether a text compiles as Python.
pub record PatchInputs : Type 0 where
  pub authorize : Text → Option Text
  pub decode : Bytes → Option Text
  pub encode : Text → Bytes
  pub compiles : Text → Bytes → Bool

-- One dictionary of the list `changes`.
pub record Change : Type 0 where
  pub path : Text
  pub old : Option Text
  pub new : Option Text

-- What a raised error says of; a path is as the change spells it.
pub data PatchError : Type 0 where
  no_changes too_many no_path rolled_back rollback_failed : PatchError
  denied repeated oversized binary not_utf8 : Text → PatchError
  already_exists no_content missing delete_mismatch no_old_text : Text → PatchError
  occurrences : Text → ℕ → PatchError
  invalid_python : Text → PatchError

pub data Checked {ℓ} (A : Type ℓ) : Type ℓ where
  failed : PatchError → Checked A
  ok : A → Checked A

abbrev pub and_then {ℓ κ} : {A : Type ℓ} {B : Type κ} → Checked A → (A → Checked B) → Checked B
and_then (failed e) f = failed e
and_then (ok x) f = f x

-- A change whose path is authorized.
pub record Target : Type 0 where
  pub path : Text
  pub resolved : Text
  pub old : Option Text
  pub new : Option Text

pub record Item : Type 0 where
  pub path : Text
  pub resolved : Text
  pub before : Option Text
  pub before_bytes : Option Bytes
  pub after : Option Text
  pub after_bytes : Option Bytes
  pub operation : Operation
  pub mode : Option ℕ

abbrev pub max_changes : ℕ
max_changes = 50

abbrev pub content_of : Option File → Option Bytes
content_of none = none
content_of (some f) = some f.content

abbrev pub mode_of : Option File → Option ℕ
mode_of none = none
mode_of (some f) = some f.mode

-- The path of a change, where it is authorized and new, and then the rest of the changes.
unfoldable pub with_target :
    List Text → Change → (Text → Checked (List Target)) → Option Text → Checked (List Target)
unfolding strip
with_target seen c rest none = failed (denied (strip c.path))
with_target seen c rest (some resolved) =
    if any (text_eq resolved) seen
    then failed (repeated (strip c.path))
    else and_then (rest resolved) (λ targets.
      ok (record { path = strip c.path; resolved = resolved; old = c.old; new = c.new } ∷ targets))

-- `p.suffix.lower() == suffix`, for a suffix with one dot at its front
abbrev has_suffix : Text → Text → Bool
has_suffix file_name suffix =
    ends_with (lower file_name) suffix && ltb (length suffix) (length file_name)

-- `resolved.suffix.lower() in {".py", ".pyi"}`
unfoldable pub is_python : Text → Bool
unfolding name ends_with lower
is_python p = has_suffix (name p) (codes ".py") || has_suffix (name p) (codes ".pyi")

-- The operation and the text behind it.
unfoldable pub after_of :
    Text → Option Text → Option Text → Option Text → Checked (Operation × Option Text)
unfolding text_eq count replace_first
after_of path none none none = failed (no_content path)
after_of path none none (some new) = ok (add, some new)
after_of path (some before) none new = failed (already_exists path)
after_of path none (some old) new = failed (missing path)
after_of path (some before) (some old) none =
    if text_eq old before then ok (delete, none) else failed (delete_mismatch path)
after_of path (some before) (some old) (some new) =
    let n : ℕ = count before old in
    if null old
    then failed (no_old_text path)
    else if n == 1
    then ok (update, some (replace_first old new before))
    else failed (occurrences path n)

module _ (inputs : PatchInputs) where
  -- The first loop: every target is resolved and authorized before any is read.
  unfoldable pub authorize_changes : List Text → List Change → Checked (List Target)
  unfolding strip with_target
  authorize_changes seen [] = ok []
  authorize_changes seen (c ∷ l) =
      if null (strip c.path)
      then failed no_path
      else with_target seen c (λ resolved. authorize_changes (resolved ∷ seen) l)
          (inputs.authorize (strip c.path))

  unfoldable pub read_before : ℕ → Text → Option File → Checked (Option Text)
  read_before limit path none = ok none
  read_before limit path (some f) =
      if ltb limit (length f.content)
      then failed (oversized path)
      else if has 0 f.content
      then failed (binary path)
      else elim (inputs.decode f.content) [ none ↦ failed (not_utf8 path) | some t ↦ ok (some t) ]

  -- `_validate_python_source`
  unfoldable pub validate_python_source : Text → Text → Option Bytes → Checked (Option Bytes)
  unfolding is_python
  validate_python_source path resolved none = ok none
  validate_python_source path resolved (some content) =
      if is_python resolved && not (inputs.compiles resolved content)
      then failed (invalid_python path)
      else ok (some content)

  abbrev pub encoded : Option Text → Option Bytes
  encoded none = none
  encoded (some t) = some (inputs.encode t)

  -- One round of the second loop, on what the target holds.
  unfoldable pub prepare : ℕ → Target → Option File → Checked Item
  unfolding read_before after_of validate_python_source
  prepare limit t o = and_then (read_before limit t.path o) (λ before.
      and_then (after_of t.path before t.old t.new) (λ change.
        and_then (validate_python_source t.path t.resolved (encoded change.1)) (λ after_bytes.
          ok (record {
            path = t.path;
            resolved = t.resolved;
            before = before;
            before_bytes = content_of o;
            after = change.1;
            after_bytes = after_bytes;
            operation = change.0;
            mode = mode_of o;
          }))))

  unfoldable pub prepare_all : ℕ → FileSystem → List Target → Checked (List Item)
  unfolding prepare
  prepare_all limit fs [] = ok []
  prepare_all limit fs (t ∷ l) =
      and_then (prepare limit t (fs t.resolved))
        (λ i. and_then (prepare_all limit fs l) (λ items. ok (i ∷ items)))

  -- All that is checked before the first file changes.
  unfoldable pub preflight : ℕ → FileSystem → List Change → Checked (List Item)
  unfolding authorize_changes prepare_all
  preflight limit fs changes =
      if null changes
      then failed no_changes
      else if ltb max_changes (length changes)
      then failed too_many
      else and_then (authorize_changes [] changes) (prepare_all limit fs)
