-- ===== src/Budget.antt =====
-- `BudgetGuard` (budget.py): caps on the tokens, the cost and the time of a session.
-- Amounts of money and time are floats, an argument of the model; a call's clock reading, too.
pub mod Sticky
pub mod Caps
mod Tests
use noah_code.Prelude.{
  ℕ, ◌+◌, ℤ, pos, negsuc, Bool, true, false, Option, none, some, List, [], ◌∷◌, ltb, null,
  if◌then◌else◌,
}
use noah_code.Python.Text.{Text}

-- The floats: subtraction, the larger and the smaller of two, `>`, and the texts of the errors.
pub record Floats : Type 1 where
  pub Amount : Type 0
  pub nil : Amount
  pub plus : Amount → Amount → Amount
  pub minus : Amount → Amount → Amount
  pub larger : Amount → Amount → Amount
  pub smaller : Amount → Amount → Amount
  pub above : Amount → Amount → Bool
  pub time_message : Amount → Amount → Text
  pub token_message : ℕ → ℕ → Text
  pub cost_message : Amount → Amount → Text

-- What `float(value)` makes of a token count: nothing (an error), a value that is not finite, or a
-- number, of which `int` keeps the integral part.
pub data TokenReading : Type 0 where
  not_a_number not_finite : TokenReading
  finite : ℤ → TokenReading

unfoldable pub sanitize_tokens : TokenReading → ℕ
sanitize_tokens not_a_number = 0
sanitize_tokens not_finite = 0
sanitize_tokens (finite (pos n)) = n
sanitize_tokens (finite (negsuc n)) = 0

-- A cost is `none` where it is no number, or NaN.
unfoldable pub sanitize_cost : (f : Floats) → Option f.Amount → f.Amount
sanitize_cost f none = f.nil
sanitize_cost f (some x) = f.larger x f.nil

-- `BudgetConfig`
pub record BudgetConfig (f : Floats) : Type 0 where
  pub max_tokens : Option ℕ
  pub max_cost_usd : Option f.Amount
  pub max_seconds : Option f.Amount

-- `time.monotonic()` and `time.time()`
pub record Clock (f : Floats) : Type 0 where
  pub monotonic : f.Amount
  pub wall : f.Amount

pub record BudgetGuard (f : Floats) : Type 0 where
  pub config : BudgetConfig f
  pub started : f.Amount
  pub started_wall : f.Amount
  pub prompt_tokens : ℕ
  pub completion_tokens : ℕ
  pub cost_usd : f.Amount
  pub exceeded : Option Text

-- What a saved session gives back; `started_at` is `none` where the key is missing.
pub record Saved (f : Floats) : Type 0 where
  pub prompt : TokenReading
  pub completion : TokenReading
  pub cost : Option f.Amount
  pub started_at : Option f.Amount
  pub breach : Option Text

module _ (f : Floats) where
  unfoldable pub new : BudgetConfig f → Clock f → BudgetGuard f
  new config now = record {
    config = config;
    started = now.monotonic;
    started_wall = now.wall;
    prompt_tokens = 0;
    completion_tokens = 0;
    cost_usd = f.nil;
    exceeded = none;
  }

  unfoldable pub total_tokens : BudgetGuard f → ℕ
  total_tokens g = g.prompt_tokens + g.completion_tokens

  unfoldable pub elapsed_seconds : BudgetGuard f → Clock f → f.Amount
  elapsed_seconds g now =
      f.larger (f.larger (f.minus now.monotonic g.started) f.nil)
        (f.larger (f.minus now.wall g.started_wall) f.nil)

  unfoldable pub remaining_seconds : BudgetGuard f → Clock f → Option f.Amount
  unfolding elapsed_seconds
  remaining_seconds g now = elim g.config.max_seconds [
    | none ↦ none
    | some cap ↦ some (f.larger (f.minus cap (elapsed_seconds g now)) f.nil)
  ]

  unfoldable pub add_usage :
      BudgetGuard f → TokenReading → TokenReading → Option f.Amount → BudgetGuard f
  unfolding sanitize_tokens sanitize_cost
  add_usage g prompt completion cost = record g {
    prompt_tokens = g.prompt_tokens + sanitize_tokens prompt;
    completion_tokens = g.completion_tokens + sanitize_tokens completion;
    cost_usd = f.plus g.cost_usd (sanitize_cost f cost);
  }

  abbrev pub over_amount : Option f.Amount → f.Amount → (f.Amount → Text) → Option Text
  over_amount none used message = none
  over_amount (some cap) used message = if f.above used cap then some (message cap) else none

  abbrev pub over_tokens : Option ℕ → ℕ → Option Text
  over_tokens none used = none
  over_tokens (some cap) used = if ltb cap used then some (f.token_message used cap) else none

  abbrev pub first_of_two : Option Text → Option Text → Option Text
  first_of_two none b = b
  first_of_two (some m) b = some m

  -- `_breach`: the time is tried first, then the tokens, then the cost.
  unfoldable pub breach_of : BudgetGuard f → Clock f → Option Text
  unfolding elapsed_seconds total_tokens
  breach_of g now =
      first_of_two
        (over_amount g.config.max_seconds (elapsed_seconds g now)
          (f.time_message (elapsed_seconds g now)))
        (first_of_two (over_tokens g.config.max_tokens (total_tokens g))
          (over_amount g.config.max_cost_usd g.cost_usd (f.cost_message g.cost_usd)))

  -- The message of the `BudgetExceeded` that is raised, or `none`.
  unfoldable pub enforce : BudgetGuard f → Clock f → BudgetGuard f × Option Text
  unfolding breach_of
  enforce g now = elim g.exceeded [
    | some m ↦ (g, some m)
    | none ↦ (record g { exceeded = breach_of g now }, breach_of g now)
  ]

  unfoldable pub raise_cost : BudgetGuard f → Option f.Amount → BudgetGuard f
  unfolding sanitize_cost
  raise_cost g total = record g { cost_usd = f.larger g.cost_usd (sanitize_cost f total) }

  unfoldable pub sync_cost_usd :
      BudgetGuard f → Option f.Amount → Clock f → BudgetGuard f × Option Text
  unfolding raise_cost enforce
  sync_cost_usd g total now = enforce (raise_cost g total) now

  unfoldable pub observe_cost_usd : BudgetGuard f → Option f.Amount → Clock f → BudgetGuard f
  unfolding raise_cost breach_of
  observe_cost_usd g total now =
      let raised = raise_cost g total in
      record raised { exceeded = first_of_two g.exceeded (breach_of raised now) }

  -- `str(exceeded) if exceeded else None`
  abbrev restored_breach : Option Text → Option Text
  restored_breach none = none
  restored_breach (some m) = if null m then none else some m

  abbrev or_now : Option f.Amount → f.Amount → f.Amount
  or_now none now = now
  or_now (some t) now = t

  -- `none` stands for data that is empty or missing.
  unfoldable pub load_state : BudgetGuard f → Option (Saved f) → Clock f → BudgetGuard f
  unfolding sanitize_tokens sanitize_cost
  load_state g none now = g
  load_state g (some saved) now =
      let wall = f.smaller (or_now saved.started_at now.wall) now.wall in
      record g {
        prompt_tokens = sanitize_tokens saved.prompt;
        completion_tokens = sanitize_tokens saved.completion;
        cost_usd = sanitize_cost f saved.cost;
        started_wall = wall;
        started = f.minus now.monotonic (f.larger (f.minus now.wall wall) f.nil);
        exceeded = restored_breach saved.breach;
      }
