-- ===== src/Usage/Tests.antt =====
-- A tracker with natural numbers for the amounts.
use noah_code.Prelude.{
  ℕ, ◌+◌, ◌-◌, false, none, some, List, [], ◌∷◌, ◌≡◌, refl, arith, ltb, leb, if◌then◌else◌,
}
use noah_code.Python.Text.{codes}
use noah_code.Budget.{Floats}
use noah_code.Usage.{UsageTracker, new_tracker, usage_snapshot, to_dict, load_dict}
use noah_code.Usage.Totals.{
  UsageCall, start_call, end_call, prefix_call, complete_call, perform_all, IsSound,
  perform_all-IsSound, load_dict-to_dict,
}

abbrev naturals : Floats
naturals = record {
  Amount = ℕ;
  nil = 0;
  plus = λ a b. a + b;
  minus = λ a b. a - b;
  larger = λ a b. if leb a b then b else a;
  smaller = λ a b. if leb a b then a else b;
  above = λ a b. ltb b a;
  time_message = λ used cap. codes "time";
  token_message = λ used cap. codes "tokens";
  cost_message = λ used cap. codes "cost";
}

-- The second request extends the first, the third one begins like it.
abbrev calls : List (UsageCall naturals)
calls =
    start_call (codes "g", 1) 3
    ∷ prefix_call (some (codes "abc")) none
    ∷ end_call (codes "g", 1) false 5
    ∷ prefix_call (some (codes "abcd")) (some [])
    ∷ prefix_call (some (codes "abx")) (some (codes "default"))
    ∷ complete_call 10 4 2 0 7
    ∷ []

abbrev after_calls : UsageTracker naturals
after_calls = perform_all naturals (new_tracker naturals) calls

counts : usage_snapshot naturals after_calls ≡ record {
  calls = 1;
  failed_calls = 1;
  prompt_tokens = 10;
  cached_tokens = 4;
  completion_tokens = 2;
  reasoning_tokens = 0;
  cost_usd = 7;
  llm_seconds = 2;
  tool_output_chars = 0;
  prefix_calls = 3;
  prefix_append_only = 1;
  prefix_reused_chars = 5;
  prefix_total_chars = 10;
}
unfolding perform_all new_tracker usage_snapshot
counts = refl

perform_all-IsSound_example : IsSound naturals after_calls
unfolding new_tracker
perform_all-IsSound_example =
    perform_all-IsSound naturals (new_tracker naturals) calls
      (omega arith, omega arith, omega arith)

loads_what_was_saved :
    usage_snapshot naturals (
      load_dict naturals
        (new_tracker naturals)
        (some (to_dict naturals (usage_snapshot naturals after_calls))))
    ≡ usage_snapshot naturals after_calls
unfolding perform_all new_tracker
loads_what_was_saved = load_dict-to_dict naturals (new_tracker naturals) after_calls refl refl
