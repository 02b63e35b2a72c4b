-- ===== src/Checks/Blockers.antt =====
-- `completion_blockers`: the newest observed row of each check, where it has not passed.
use noah_code.Checks.Ledger.{
  Row, CheckState, passed, snapshot, CheckLedger, option_text_eq, running, incomplete, unknown,
  stale, failed,
}
use noah_code.Prelude.{
  Bool, List, true, ◌∷◌, [], Option, false, none, ◌&&◌, if◌then◌else◌, some, ◌≡◌, ap, arith, refl,
  ◌∙◌,
}
use noah_code.Python.Text.{text_eq, Text}
use noah_code.Python.Text.Laws.{text_eq_iff}

abbrev pub is_passed : CheckState → Bool
is_passed passed = true
is_passed _ = false

module _ (T : Type 0) where
  -- Rows have the same key in the dictionary: the command and the directory.
  abbrev pub same_check : Row T → Row T → Bool
  same_check a b = text_eq a.check.command b.check.command && option_text_eq a.check.cwd b.check.cwd

  -- `latest[key] = row`: the value of a key that is there is replaced.
  unfoldable pub put : Row T → List (Row T) → List (Row T)
  put row [] = row ∷ []
  put row (r ∷ l) = elim (same_check r row) [ true ↦ row ∷ l | false ↦ r ∷ put row l ]

  unfoldable pub latest_from : List (Row T) → List (Row T) → List (Row T)
  unfolding put
  latest_from latest [] = latest
  latest_from latest (row ∷ l) = latest_from (put row latest) l

  unfoldable pub not_passed : List (Row T) → List (Row T)
  not_passed [] = []
  not_passed (row ∷ l) = elim (is_passed row.state) [
    | true ↦ not_passed l
    | false ↦ row ∷ not_passed l
  ]

  unfoldable pub blockers_of : List (Row T) → List (Row T)
  unfolding latest_from not_passed
  blockers_of rows = not_passed (latest_from [] rows)

  unfoldable pub completion_blockers :
      (T → T → Bool) → CheckLedger T → T → Option Text → List (Row T)
  unfolding snapshot blockers_of
  completion_blockers at_least ledger since current =
      blockers_of (snapshot T at_least ledger since current)

  -- The newest of the rows of a check, if there is one.
  unfoldable pub newest : Row T → List (Row T) → Option (Row T) → Option (Row T)
  newest key [] found = found
  newest key (row ∷ l) found = newest key l (if same_check key row then some row else found)

  find : Row T → List (Row T) → Option (Row T)
  find key [] = none
  find key (row ∷ l) = elim (same_check key row) [ true ↦ some row | false ↦ find key l ]

  text_eq-trans_sym : (a b c : Text) → text_eq a b ≡ true → text_eq c a ≡ text_eq c b
  text_eq-trans_sym a b c h = ap (text_eq c) ((text_eq_iff a b).0 h)

  option_text_eq-right :
      (a b c : Option Text) → option_text_eq a b ≡ true → option_text_eq c a ≡ option_text_eq c b
  option_text_eq-right none none c h = refl
  option_text_eq-right none (some b) c h = cc
  option_text_eq-right (some a) none c h = cc
  option_text_eq-right (some a) (some b) none h = refl
  option_text_eq-right (some a) (some b) (some c) h = text_eq-trans_sym a b c h

  same_check-right : (key a b : Row T) → same_check a b ≡ true → same_check key a ≡ same_check key b
  same_check-right key a b h = ground (
    arith,
    text_eq-trans_sym a.check.command b.check.command key.check.command,
    option_text_eq-right a.check.cwd b.check.cwd key.check.cwd,
  )

  text_eq-left : (a b c : Text) → text_eq a b ≡ true → text_eq a c ≡ text_eq b c
  text_eq-left a b c h = ap (λ x. text_eq x c) ((text_eq_iff a b).0 h)

  option_text_eq-left :
      (a b c : Option Text) → option_text_eq a b ≡ true → option_text_eq a c ≡ option_text_eq b c
  option_text_eq-left none none c h = refl
  option_text_eq-left none (some b) c h = cc
  option_text_eq-left (some a) none c h = cc
  option_text_eq-left (some a) (some b) none h = refl
  option_text_eq-left (some a) (some b) (some c) h = text_eq-left a b c h

  same_check-left : (a b key : Row T) → same_check a b ≡ true → same_check a key ≡ same_check b key
  same_check-left a b key h = ground (
    arith,
    text_eq-left a.check.command b.check.command key.check.command,
    option_text_eq-left a.check.cwd b.check.cwd key.check.cwd,
  )

  find-put :
      (key row : Row T) (l : List (Row T))
      → find key (put row l) ≡ (if same_check key row then some row else find key l)
  unfolding put find
  find-put key row [] = ground arith
  find-put key row (r ∷ l) =
      ground (arith, find-put key row l, same_check-right key r row, same_check-left key r row)

  find-latest_from :
      (key : Row T) (l latest : List (Row T))
      → find key (latest_from latest l) ≡ newest key l (find key latest)
  unfolding latest_from newest
  find-latest_from key [] latest = refl
  find-latest_from key (row ∷ l) latest =
      find-latest_from key l (put row latest) ∙ ap (newest key l) (find-put key row latest)

  is_passed_sound : (s : CheckState) → is_passed s ≡ true → s ≡ passed
  is_passed_sound running h = cc
  is_passed_sound incomplete h = cc
  is_passed_sound unknown h = cc
  is_passed_sound stale h = cc
  is_passed_sound passed h = refl
  is_passed_sound failed h = cc

  find-not_passed :
      (key row : Row T) (l : List (Row T))
      → not_passed l ≡ []
      → find key l ≡ some row
      → row.state ≡ passed
  unfolding not_passed find
  find-not_passed key row [] h e = cc
  find-not_passed key row (r ∷ l) h e =
      ground (arith, find-not_passed key row l, is_passed_sound r.state)

  -- Where `completion_blockers` is empty, the newest row of every check that was observed
  -- since then has passed.
  pub completion_blockers-none :
      (at_least : T → T → Bool) (ledger : CheckLedger T) (since : T) (current : Option Text)
      (key row : Row T)
      → completion_blockers at_least ledger since current ≡ []
      → newest key (snapshot T at_least ledger since current) none ≡ some row
      → row.state ≡ passed
  unfolding completion_blockers blockers_of find
  completion_blockers-none at_least ledger since current key row h e =
      find-not_passed key row (latest_from [] (snapshot T at_least ledger since current)) h
        (find-latest_from key (snapshot T at_least ledger since current) [] ∙ e)
