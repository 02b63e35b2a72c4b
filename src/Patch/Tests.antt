-- ===== src/Patch/Tests.antt =====
-- A patch of two files, with and without a step that fails.
use noah_code.Prelude.{
  ℕ, Bool, true, Option, none, some, List, [], ◌∷◌, ◌≡◌, refl, length, false, any,
}
use noah_code.Python.Text.{Text, codes}
use noah_code.Files.{Bytes, File, put_file}
use noah_code.Patch.{
  rollback_failed, PatchInputs, Change, Item, ok, preflight, update, add, false, no_old_text,
  rollback_failed, read_before, validate_python_source, prepare, any,
}
use noah_code.Patch.Commit.{roll_back, PatchEnv, Workspace, apply_patch, RollbackFaults}
use noah_code.Patch.Steps.{AreNew}
use noah_code.Patch.Failing.{WasRestored}
use noah_code.Patch.Applies.{IsApplied, apply_patch-IsApplied}
use noah_code.Patch.Atomic.{apply_patch-WasRestored}
use noah_code.Patch.Unified.{apply_unified_diff, of_patch}
use noah_code.Diff.{FileDiff, DiffChange}
use noah_code.Diff.Apply.{materialize_change}
use noah_code.Diff.Sections.{parsed}
use noah_code.Patch.Whole.{materialize_change-IsAccepted}
use noah_code.Store.FileOperations.{is_started}

abbrev authorize : Text → Option Text
authorize p = some p

abbrev decode : Bytes → Option Text
decode b = some b

abbrev encode : Text → Bytes
encode t = t

abbrev compiles : Text → Bytes → Bool
compiles p b = true

abbrev sha256 : Bytes → Text
sha256 b = b

abbrev new_uuid : Text → Text
new_uuid p = p

abbrev new_mutation : Text → ℕ
new_mutation p = length p

abbrev inputs : PatchInputs
inputs = record { authorize = authorize; decode = decode; encode = encode; compiles = compiles }

abbrev env : PatchEnv
env = record {
  sha256 = sha256;
  new_uuid = new_uuid;
  new_mutation = new_mutation;
  default_mode = 0o644;
  now = 5;
  operation_group = codes "g";
}

abbrev note : File
note = record { content = codes "one"; mode = 0o644 }

abbrev place : Workspace
place = record {
  files = put_file (λ q. none) (codes "a.txt") (some note);
  journal = record {
    blob_limit = 100;
    turns = [];
    redos = [];
    current = some (record { turn_id = 7; mutations = []; shell_may_bypass = false });
  };
  rows = [];
}

abbrev changes : List Change
changes =
    record { path = codes "a.txt"; old = some (codes "n"); new = some (codes "N") }
    ∷ record { path = codes " b.txt"; old = none; new = some (codes "new") }
    ∷ []

abbrev items : List Item
items =
    record {
      path = codes "a.txt";
      resolved = codes "a.txt";
      before = some (codes "one");
      before_bytes = some (codes "one");
      after = some (codes "oNe");
      after_bytes = some (codes "oNe");
      operation = update;
      mode = some 0o644;
    }
    ∷ record {
      path = codes "b.txt";
      resolved = codes "b.txt";
      before = none;
      before_bytes = none;
      after = some (codes "new");
      after_bytes = some (codes "new");
      operation = add;
      mode = none;
    }
    ∷ []

passes : preflight inputs 100 place.files changes ≡ ok items
unfolding preflight
passes = refl

all_new : AreNew env place
all_new = record { uuids_differ = λ p q. refl; uuids_new = λ p. refl; mutations_new = λ p. refl }

abbrev no_fault : RollbackFaults
no_fault = record { of_write = none; of_store = none }

abbrev write_fails : RollbackFaults
write_fails = record { of_write = some 0; of_store = none }

-- The second commit fails, and so does the first write of the rollback.
fails :
    (apply_patch inputs env true (some 10) write_fails place.files changes place).0
    ≡ some rollback_failed
unfolding apply_patch
fails = refl

apply_patch-WasRestored_example :
    WasRestored env place
      (apply_patch inputs env true (some 10) write_fails place.files changes place).1
unfolding apply_patch
apply_patch-WasRestored_example =
    apply_patch-WasRestored inputs env place all_new (some 10) write_fails place.files changes refl
      refl

apply_patch-IsApplied_example :
    IsApplied inputs env place all_new items
      (apply_patch inputs env true none no_fault place.files changes place)
apply_patch-IsApplied_example =
    apply_patch-IsApplied inputs env place all_new no_fault changes items passes

-- A diff that adds a line to a file that is empty.
abbrev growing : Text
growing = codes "--- a/e\n+++ b/e\n@@ -0,0 +1 @@\n+x\n"

abbrev empty_place : Workspace
empty_place = record place {
  files = put_file (λ q. none) (codes "e") (some (record { content = []; mode = 0o644 }));
}

-- The diff fits the file, but it is refused as a patch without an old text.
refuses_empty_file :
    (apply_unified_diff inputs env true none no_fault empty_place.files growing empty_place).0
    ≡ some (of_patch (no_old_text (codes "e")))
unfolding apply_unified_diff
refuses_empty_file = refl

abbrev adding : FileDiff
adding = record {
  path = codes "e";
  is_create = false;
  is_delete = false;
  hunks = record { old_start = 1; entries = codes " a" ∷ codes "+b" ∷ [] } ∷ [];
  old_no_eol = false;
  new_no_eol = false;
}

abbrev grown : DiffChange
grown = record {
  path = codes "e";
  old = some (codes "a\n");
  new = some (codes "a\nb\n");
  operation = update;
}

is_grown : materialize_change adding (some (codes "a\n")) ≡ parsed grown
unfolding materialize_change
is_grown = refl

abbrev grown_file : Option File
grown_file = some (record { content = codes "a\n"; mode = 0o644 })

is_read : read_before inputs 100 (codes "e") grown_file ≡ ok (some (codes "a\n"))
unfolding read_before
is_read = refl

is_valid :
    validate_python_source inputs (codes "e") (codes "e") (some (codes "a\nb\n"))
    ≡ ok (some (codes "a\nb\n"))
unfolding validate_python_source
is_valid = refl

materialize_change-IsAccepted_example :
    prepare inputs 100
      (record { path = codes "e"; resolved = codes "e"; old = grown.old; new = grown.new })
      grown_file
    ≡ ok (record {
      path = codes "e";
      resolved = codes "e";
      before = some (codes "a\n");
      before_bytes = some (codes "a\n");
      after = grown.new;
      after_bytes = some (codes "a\nb\n");
      operation = update;
      mode = some 0o644;
    })
materialize_change-IsAccepted_example =
    materialize_change-IsAccepted inputs 100 (codes "e") (codes "e") adding grown_file
      (some (codes "a\n")) grown (some (codes "a\nb\n")) refl is_read is_grown is_valid

abbrev store_fails : RollbackFaults
store_fails = record { of_write = some 0; of_store = some 1 }

-- Where the runtime store fails as well, a row may stay started.
stays_started :
    let r = apply_patch inputs env true (some 10) store_fails place.files changes place in
    (r.0 ≡ some rollback_failed) × (any is_started r.1.rows ≡ true)
unfolding apply_patch roll_back
stays_started = (refl, refl)
