-- ===== src/Checks/Tests.antt =====
-- Runs of the ledger with natural numbers for the time, and the theorems applied to them.
use noah_code.Python.FilePath
use noah_code.Python.Text.{words, Text, codes, text_eq, member, before}
use noah_code.Prelude.{
  [], none, true, false, ℕ, any, length, ◌≡◌, Option, Bool, some, ◌∷◌, List, leb, pos, ◌↔◌, ◌≢◌,
  ◌≤◌, refl, arith,
}
use noah_code.Checks.Ledger.{
  finish, Row, snapshot, CheckLedger, CheckRecord, state_of, finish, passed, capacity,
}
use noah_code.Checks.Runs.{perform_all, begin_call, finish_call, finish-once, perform_all-bounded}
use noah_code.Checks.Label.{
  check_label, is_uncertain_char, is_operator, check_label-simple, label_of, behind_uv,
  behind_python, python_name, is_inert_flag, uv_flags, label_tokens,
}
use noah_code.Checks.Blockers.{
  completion_blockers, newest, blockers_of, latest_from, completion_blockers-none, put, not_passed,
}
use noah_code.Checks.Evidence.{IsEvidence, state_of-passed}
use noah_code.Python.Regex.{fullmatch}

abbrev on_blanks : Text → Option (List Text)
on_blanks s = some (words s)

abbrev keep_text : ℕ → Text → Text
keep_text n t = t

abbrev not_before : ℕ → ℕ → Bool
not_before a b = leb b a

pytest_label : check_label on_blanks (codes "uv run -q pytest tests") ≡ some (codes "pytest")
unfolding check_label words FilePath.name is_operator label_of behind_uv behind_python python_name
    is_inert_flag fullmatch uv_flags text_eq member before label_tokens
pytest_label = refl

python_label : check_label on_blanks (codes "python3 -m mypy src") ≡ some (codes "mypy")
unfolding check_label words FilePath.name is_operator label_of behind_uv behind_python python_name
    is_inert_flag fullmatch uv_flags text_eq member before label_tokens
python_label = refl

no_label : check_label on_blanks (codes "pytest && rm x") ≡ none
unfolding check_label words FilePath.name is_operator label_of behind_uv behind_python python_name
    is_inert_flag fullmatch uv_flags text_eq member before label_tokens
no_label = refl

labels_simple :
    (any is_uncertain_char (codes "uv run -q pytest tests") ≡ false)
    × ((tokens : List Text) × (on_blanks (codes "uv run -q pytest tests") ≡ some tokens)
        × (tokens ≢ [])
        × (any is_operator tokens ≡ false))
labels_simple =
    check_label-simple on_blanks (codes "uv run -q pytest tests") (codes "pytest") pytest_label

abbrev one_run : CheckRecord ℕ
one_run = record {
  identity = 0;
  command = codes "make test";
  label = codes "make test";
  source = codes "main";
  started_at = 5;
  start_revision = some (codes "r");
  cwd = none;
  returncode = some (pos 0);
  finished_at = some 7;
  end_revision = some (codes "r");
}

abbrev ledger : CheckLedger ℕ
ledger = record { records = one_run ∷ []; stored = []; identities = 1 }

state_of-passed_example :
    (state_of ℕ (some (codes "r")) one_run ≡ passed) ↔ IsEvidence ℕ (some (codes "r")) one_run
state_of-passed_example = state_of-passed ℕ (some (codes "r")) one_run

abbrev passed_row : Row ℕ
passed_row = record { check = one_run; state = passed }

unblocked : completion_blockers ℕ not_before ledger 3 (some (codes "r")) ≡ []
unfolding completion_blockers snapshot blockers_of latest_from put not_passed state_of text_eq
unblocked = refl

newest_run :
    newest ℕ passed_row (snapshot ℕ not_before ledger 3 (some (codes "r"))) none ≡ some passed_row
unfolding newest snapshot state_of text_eq
newest_run = refl

completion_blockers-none_example : passed_row.state ≡ passed
completion_blockers-none_example =
    completion_blockers-none ℕ not_before ledger 3 (some (codes "r")) passed_row passed_row
      unblocked newest_run

keeps_bound :
    length
      (perform_all ℕ on_blanks keep_text ledger (
        begin_call (codes "make test") (codes "main") none 8 none true
        ∷ finish_call (some 1) (some (pos 0)) 9 none false
        ∷ [])).records
    ≤ capacity
keeps_bound =
    perform_all-bounded ℕ on_blanks keep_text
      (begin_call (codes "make test") (codes "main") none 8 none true
        ∷ finish_call (some 1) (some (pos 0)) 9 none false
        ∷ [])
      ledger (omega arith)

abbrev open_ledger : CheckLedger ℕ
open_ledger = record ledger {
  records = record one_run { returncode = none; finished_at = none } ∷ [];
}

finishes_once :
    (finish ℕ
      (finish ℕ open_ledger (some 0) (some (pos 1)) 8 none true)
      (some 0)
      (some (pos 0))
      9
      none
      false).records
    ≡ (finish ℕ open_ledger (some 0) (some (pos 1)) 8 none true).records
finishes_once = finish-once ℕ 0 (some (pos 1)) (some (pos 0)) 8 9 none none open_ledger true false
