-- ===== src/Patch/Atomic.antt =====
-- `apply_patch` (tools/workspace_tools.py) as a transaction.
use noah_code.Prelude.{ℕ, Bool, true, false, Option, none, some, List, [], ◌≡◌, refl, sym, arith}
use mathlib.Core.List.{append-nil}
use noah_code.Files.{FileSystem}
use noah_code.Patch.{PatchInputs, Change, PatchError, Checked, failed, ok, Item, preflight}
use noah_code.Patch.Commit.{
  PatchEnv, Workspace, Progress, started_with, transaction, patch_result, apply_patch, plan,
  RollbackFaults,
}
use noah_code.Patch.Steps.{AreNew}
use noah_code.Patch.UnderWay.{IsUnderWay}
use noah_code.Patch.Failing.{WasRestored, AfterRun, run-WasRestored}
use noah_code.Patch.Guarded.{Holds, IsReady, preflight-IsReady}
use noah_code.Patch.Discarded.{mutations_in, having_own}
use noah_code.Patch.Order.{plan-IsSafe}

abbrev pub is_error : Option PatchError → Bool
is_error none = false
is_error (some e) = true

module _ (inputs : PatchInputs) (env : PatchEnv) (w : Workspace) (n : AreNew env w) where
  -- Before the first step.
  pub started-IsUnderWay : IsUnderWay env w [] (started_with w)
  started-IsUnderWay = record {
    begun_paths = [];
    durable_is = refl;
    rows_are = sym (append-nil w.rows);
    fresh = tt;
    known = λ p. refl;
    files_are = λ p h. refl;
    committed_known = tt;
    recorded_list = mutations_in w.journal;
    journal_is = sym (having_own w.journal.current w.journal);
    discards = refl;
  }

  abbrev EndsWell : Option PatchError × Workspace → Type 0
  EndsWell (e, w') = is_error e ≡ true → WasRestored env w w'

  patch_result-EndsWell :
      (back : RollbackFaults) (r : Progress × Bool)
      → AfterRun env w back r
      → EndsWell (patch_result inputs env true back r)
  patch_result-EndsWell back (s, true) h = λ e. h refl
  patch_result-EndsWell back (s, false) h = λ e. ground (arith, e)

  preflight-EndsWell :
      (fault : Option ℕ) (back : RollbackFaults) (seen : FileSystem) (c : Checked (List Item))
      → back.of_store ≡ none
      → Holds (IsReady w.journal.blob_limit seen) c
      → EndsWell (elim c [
        | failed e ↦ (some e, w)
        | ok items ↦ patch_result inputs env true back (transaction inputs env true fault items w)
      ])
  preflight-EndsWell fault back seen (failed e) works h =
      λ x. record { closed_paths = []; restored = (λ p. refl, refl, sym (append-nil w.rows)) }
  preflight-EndsWell fault back seen (ok items) works h =
      patch_result-EndsWell back (transaction inputs env true fault items w) (
        run-WasRestored env w n back works fault (plan items) [] (started_with w) started-IsUnderWay
          (plan-IsSafe w.journal.blob_limit w.files seen items h))

  -- Where the runtime store is there and the uuids are new, a patch that ends with an error has changed
  -- no file and no mutation of the journal, and has added no row to the table but of operations that it
  -- rolled back: whichever step raised the error, whichever write of a preimage fails in the rollback as
  -- well, so long as the rollbacks of the runtime store behind them raise no error, and whatever another
  -- process changed between the checks and the transaction.
  pub apply_patch-WasRestored :
      (fault : Option ℕ) (back : RollbackFaults) (seen : FileSystem) (changes : List Change)
      → back.of_store ≡ none
      → is_error (apply_patch inputs env true fault back seen changes w).0 ≡ true
      → WasRestored env w (apply_patch inputs env true fault back seen changes w).1
  unfolding apply_patch
  apply_patch-WasRestored fault back seen changes works =
      preflight-EndsWell fault back seen (preflight inputs w.journal.blob_limit seen changes) works
        (preflight-IsReady inputs w.journal.blob_limit seen changes)
