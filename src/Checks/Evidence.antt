-- ===== src/Checks/Evidence.antt =====
-- The state of a row in `CheckLedger.snapshot` (verification.py) and the evidence behind it.
use noah_code.Prelude.{negsuc, ◌↔◌, ◌∙◌}
use noah_code.Checks.Ledger.{CheckRecord, state_of, passed, option_text_eq, is_zero}
use noah_code.Prelude.{Option, ◌≢◌, none, ◌≡◌, some, true, pos, ap, zero, refl, ℤ, arith, suc}
use noah_code.Python.Text.{Text}
use noah_code.Python.Text.Laws.{text_eq_iff}

module _ (T : Type 0) where
  -- The record's run is over with exit status 0, and the workspace has the same known fingerprint
  -- from the start of the run to now.
  pub record IsEvidence (current : Option Text) (r : CheckRecord T) : Type 0 where
    pub over : r.finished_at ≢ none
    pub succeeded : r.returncode ≡ some (pos zero)
    pub known : current ≢ none
    pub unchanged_start : r.start_revision ≡ current
    pub unchanged_end : r.end_revision ≡ current

  option_text_eq_sound : (a b : Option Text) → option_text_eq a b ≡ true → a ≡ b
  option_text_eq_sound none none h = refl
  option_text_eq_sound none (some b) h = cc
  option_text_eq_sound (some a) none h = cc
  option_text_eq_sound (some a) (some b) h = ap some ((text_eq_iff a b).0 h)

  option_text_eq_refl : (a : Option Text) → option_text_eq a a ≡ true
  option_text_eq_refl none = refl
  option_text_eq_refl (some a) = (text_eq_iff a a).1 refl

  is_zero_sound : (n : ℤ) → is_zero n ≡ true → n ≡ pos zero
  is_zero_sound (pos zero) h = refl
  is_zero_sound (pos (suc n)) h = cc
  is_zero_sound (negsuc n) h = cc

  passed-finished :
      (current : Option Text) (r : CheckRecord T)
      → state_of T current r ≡ passed
      → r.finished_at ≢ none
  unfolding state_of
  passed-finished current r h e = ground arith

  passed-code :
      (current : Option Text) (r : CheckRecord T)
      → state_of T current r ≡ passed
      → (r.returncode ≢ none) × ((n : ℤ) → r.returncode ≡ some n → is_zero n ≡ true)
  unfolding state_of
  passed-code current r h = (λ e. ground arith, λ n e. ground arith)

  zero_code :
      (o : Option ℤ) → o ≢ none → ((n : ℤ) → o ≡ some n → is_zero n ≡ true) → o ≡ some (pos zero)
  zero_code none h k = absurd (h refl)
  zero_code (some n) h k = ap some (is_zero_sound n (k n refl))

  passed-revisions :
      (current : Option Text) (r : CheckRecord T)
      → state_of T current r ≡ passed
      → (current ≢ none)
        × (option_text_eq r.start_revision r.end_revision ≡ true)
        × (option_text_eq r.end_revision current ≡ true)
  unfolding state_of
  passed-revisions current r h = ground arith

  evidence_passes :
      (current : Option Text) (r : CheckRecord T)
      → IsEvidence current r
      → state_of T current r ≡ passed
  unfolding state_of
  evidence_passes current r h = ground (
    arith,
    h.over,
    h.succeeded,
    h.known,
    h.unchanged_start,
    h.unchanged_end,
    option_text_eq_refl current,
    option_text_eq_refl r.end_revision,
  )

  -- A row reads passed exactly if its run is over with exit status 0, and the workspace has the same
  -- known fingerprint at the start of the run, at its end and now.
  pub state_of-passed :
      (current : Option Text) (r : CheckRecord T)
      → (state_of T current r ≡ passed) ↔ IsEvidence current r
  state_of-passed current r = (
    λ h.
        let (known, start, end) = passed-revisions current r h in
        let (has_code, is_success) = passed-code current r h in
        let unchanged = option_text_eq_sound r.end_revision current end in
        record {
          over = passed-finished current r h;
          succeeded = zero_code r.returncode has_code is_success;
          known = known;
          unchanged_start = option_text_eq_sound r.start_revision r.end_revision start ∙ unchanged;
          unchanged_end = unchanged;
        },
    evidence_passes current r,
  )
