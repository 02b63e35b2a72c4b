-- ===== src/Permissions/SessionRules.antt =====
-- Saving and restoring the rules that a session remembers (permissions.py). What pydantic makes of a
-- rule, and of its saved form, are arguments.
use noah_code.Prelude.{◌≡◌, refl, Option, some, none, List, [], ◌∷◌, map}
use noah_code.Permissions.Types.{Rule, Engine}

module _ (Raw : Type 0) (dump : Rule → Raw) (validate : Raw → Option Rule) where
  -- `none` is the ValidationError of the first form that is no rule.
  unfoldable pub validate_all : List Raw → Option (List Rule)
  validate_all [] = some []
  validate_all (r ∷ l) = elim (validate r) [
    | none ↦ none
    | some rule ↦ elim (validate_all l) [ none ↦ none | some rules ↦ some (rule ∷ rules) ]
  ]

  unfoldable pub snapshot_session_rules : Engine → List Raw
  snapshot_session_rules e = map dump e.session_rules

  unfoldable pub load_session_rules : Engine → List Raw → Option Engine
  unfolding validate_all
  load_session_rules e raw = elim (validate_all raw) [
    | none ↦ none
    | some rules ↦ some (record e { session_rules = rules })
  ]

  module _ (validates : (r : Rule) → validate (dump r) ≡ some r) where
    validate_all-map : (l : List Rule) → validate_all (map dump l) ≡ some l
    unfolding validate_all
    validate_all-map [] = refl
    validate_all-map (r ∷ l) = rw (validates r, validate_all-map l) refl

    -- What an engine has saved restores it: an engine with the same rules and modes, whatever it
    -- remembered, becomes the engine that was saved, where validation accepts a saved rule as it was.
    pub load-snapshot_session_rules :
        (e : Engine) (old : List Rule)
        → load_session_rules (record e { session_rules = old }) (snapshot_session_rules e) ≡ some e
    unfolding snapshot_session_rules load_session_rules
    load-snapshot_session_rules e old =
        rw (load_session_rules, validate_all-map e.session_rules) refl
