-- ===== src/Budget/Tests.antt =====
-- Runs of the guard with natural numbers for the amounts, and the theorems applied to them.
use noah_code.Budget.Sticky.{
  perform_all, usage_call, enforce_call, perform_all-total_tokens, enforce-sticky,
}
use noah_code.Budget.{
  Floats, BudgetConfig, BudgetGuard, enforce, load_state, total_tokens, add_usage, Clock, some, new,
  none, finite, pos, negsuc, [], ltb, Text, not_a_number, not_finite,
}
use noah_code.Prelude.{
  ℕ, ◌+◌, some, ◌≤◌, ◌≡◌, ◌-◌, none, refl, if◌then◌else◌, leb, [], ◌⊎◌, ltb, ◌∷◌,
}
use noah_code.Python.Text.{codes, Text}
use noah_code.Budget.Caps.{IsWithin, enforce-IsWithin}

abbrev naturals : Floats
naturals = record {
  Amount = ℕ;
  nil = 0;
  plus = λ a b. a + b;
  minus = λ a b. a - b;
  larger = λ a b. if leb a b then b else a;
  smaller = λ a b. if leb a b then a else b;
  above = λ a b. ltb b a;
  time_message = λ used cap. codes "time limit exceeded";
  token_message = λ used cap. codes "token limit exceeded";
  cost_message = λ used cap. codes "cost limit exceeded";
}

abbrev at : ℕ → Clock naturals
at t = record { monotonic = t; wall = t }

abbrev caps : BudgetConfig naturals
caps = record { max_tokens = some 10; max_cost_usd = none; max_seconds = some 60 }

abbrev spent : BudgetGuard naturals
spent = add_usage naturals (new naturals caps (at 0)) (finite (pos 8)) (finite (pos 3)) none

over_tokens : (enforce naturals spent (at 1)).1 ≡ some (codes "token limit exceeded")
unfolding enforce add_usage new
over_tokens = refl

out_of_time :
    (enforce naturals (new naturals caps (at 0)) (at 61)).1 ≡ some (codes "time limit exceeded")
unfolding enforce new
out_of_time = refl

restored :
    (load_state naturals spent
      (some (record {
        prompt = finite (negsuc 4);
        completion = finite (pos 5);
        cost = none;
        started_at = none;
        breach = some [];
      }))
      (at 7)).exceeded
    ≡ none
unfolding load_state
restored = refl

enforce-sticky_example :
    (enforce naturals
      (perform_all naturals
        (enforce naturals spent (at 1)).0
        (usage_call (finite (negsuc 9)) not_a_number none ∷ enforce_call (at 2) ∷ []))
      (at 3)).1
    ≡ some (codes "token limit exceeded")
enforce-sticky_example =
    enforce-sticky naturals spent (at 1) (at 3) (codes "token limit exceeded")
      (usage_call (finite (negsuc 9)) not_a_number none ∷ enforce_call (at 2) ∷ []) over_tokens

tokens_never_fall :
    total_tokens naturals spent
    ≤ total_tokens naturals
        (perform_all naturals spent (usage_call (finite (negsuc 9)) not_finite none ∷ []))
tokens_never_fall =
    perform_all-total_tokens naturals (usage_call (finite (negsuc 9)) not_finite none ∷ []) spent

spent_open : spent.exceeded ≡ none
unfolding add_usage new
spent_open = refl

enforce-IsWithin_example :
    (((enforce naturals spent (at 1)).1 ≡ none) × IsWithin naturals spent (at 1))
    ⊎ ((m : Text) × ((enforce naturals spent (at 1)).1 ≡ some m)
        × (¬ IsWithin naturals spent (at 1)))
enforce-IsWithin_example = enforce-IsWithin naturals spent (at 1) spent_open
