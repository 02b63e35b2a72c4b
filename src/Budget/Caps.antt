-- ===== src/Budget/Caps.antt =====
-- The caps of `BudgetGuard.enforce` and `_breach` (budget.py).
use noah_code.Prelude.{
  ◌≡◌, refl, ℕ, ◌≤◌, ◌⊎◌, false, Option, some, none, arith, inl, inr, Bool-cases, ltb,
}
use noah_code.Budget.{
  Floats, BudgetGuard, Clock, total_tokens, elapsed_seconds, breach_of, enforce, Text, over_tokens,
  over_amount, ltb,
}
use noah_code.Python.Text.{Text}

module _ (f : Floats) where
  -- An amount stays within a cap, where there is one.
  abbrev pub Under : f.Amount → Option f.Amount → Type 0
  Under used none = Unit {0}
  Under used (some cap) = f.above used cap ≡ false

  abbrev pub Counted : ℕ → Option ℕ → Type 0
  Counted used none = Unit {0}
  Counted used (some cap) = used ≤ cap

  pub record IsWithin (g : BudgetGuard f) (now : Clock f) : Type 0 where
    pub time : Under (elapsed_seconds f g now) g.config.max_seconds
    pub tokens : Counted (total_tokens f g) g.config.max_tokens
    pub cost : Under g.cost_usd g.config.max_cost_usd

  over_amount-cases :
      (cap : Option f.Amount) (used : f.Amount) (message : f.Amount → Text)
      → ((over_amount f cap used message ≡ none) × Under used cap)
        ⊎ ((m : Text) × (over_amount f cap used message ≡ some m) × (¬ Under used cap))
  over_amount-cases none used message = inl (refl, tt)
  over_amount-cases (some cap) used message = elim (Bool-cases (f.above used cap)) [
    | inl over ↦ inr (message cap, rw over refl, λ h. cc)
    | inr under ↦ inl (rw under refl, under)
  ]

  over_tokens-cases :
      (cap : Option ℕ) (used : ℕ)
      → ((over_tokens f cap used ≡ none) × Counted used cap)
        ⊎ ((m : Text) × (over_tokens f cap used ≡ some m) × (¬ Counted used cap))
  over_tokens-cases none used = inl (refl, tt)
  over_tokens-cases (some cap) used = elim (Bool-cases (ltb cap used)) [
    | inl over ↦ inr (f.token_message used cap, rw over refl, λ h. ground arith)
    | inr under ↦ inl (rw under refl, ground arith)
  ]

  breach_of-cases :
      (g : BudgetGuard f) (now : Clock f)
      → ((breach_of f g now ≡ none) × IsWithin g now)
        ⊎ ((m : Text) × (breach_of f g now ≡ some m) × (¬ IsWithin g now))
  unfolding breach_of
  breach_of-cases g now =
      elim (over_amount-cases g.config.max_seconds (elapsed_seconds f g now)
        (f.time_message (elapsed_seconds f g now))) [
          | inr (m, e, fails) ↦ inr (m, rw e refl, λ h. fails h.time)
          | inl (e, time) ↦ elim (over_tokens-cases g.config.max_tokens (total_tokens f g)) [
            | inr (m, e', fails) ↦ inr (m, rw (e, e') refl, λ h. fails h.tokens)
            | inl (e', tokens) ↦
                elim (over_amount-cases g.config.max_cost_usd g.cost_usd
                  (f.cost_message g.cost_usd)) [
                    | inr (m, e'', fails) ↦ inr (m, rw (e, e', e'') refl, λ h. fails h.cost)
                    | inl (e'', cost) ↦
                        inl (
                          rw (e, e', e'') refl,
                          record { time = time; tokens = tokens; cost = cost },
                        )
                  ]
          ]
        ]

  enforce-breach_of :
      (g : BudgetGuard f) (now : Clock f)
      → g.exceeded ≡ none
      → (enforce f g now).1 ≡ breach_of f g now
  unfolding enforce
  enforce-breach_of g now h = ground arith

  -- Where no error was raised before, `enforce` returns exactly if the time, the tokens and the cost
  -- are within their caps, and raises an error exactly if one of them is not.
  pub enforce-IsWithin :
      (g : BudgetGuard f) (now : Clock f)
      → g.exceeded ≡ none
      → (((enforce f g now).1 ≡ none) × IsWithin g now)
        ⊎ ((m : Text) × ((enforce f g now).1 ≡ some m) × (¬ IsWithin g now))
  enforce-IsWithin g now h = rw (enforce-breach_of g now h) (breach_of-cases g now)
