-- ===== src/Usage.antt =====
-- `UsageTracker` (usage.py): the totals of a session's calls, tokens, costs and outputs.
pub mod Totals
mod Tests
use noah_code.Prelude.{
  ℕ, suc, ◌+◌, ℤ, pos, negsuc, Bool, true, false, ◌&&◌, not, Option, none, some, List, [], ◌∷◌,
  ◌++◌, ◌==◌, leb, if◌then◌else◌, null, length,
}
use noah_code.Python.Text.{Text, text_eq, codes, starts_with}
use noah_code.Budget.{Floats}
use noah_code.Python.Dict.{get_item, set_item, pop_item}

pub record UsageSnapshot (f : Floats) : Type 0 where
  pub calls : ℕ
  pub failed_calls : ℕ
  pub prompt_tokens : ℕ
  pub cached_tokens : ℕ
  pub completion_tokens : ℕ
  pub reasoning_tokens : ℕ
  pub cost_usd : f.Amount
  pub llm_seconds : f.Amount
  pub tool_output_chars : ℕ
  pub prefix_calls : ℕ
  pub prefix_append_only : ℕ
  pub prefix_reused_chars : ℕ
  pub prefix_total_chars : ℕ

-- `generation_id` and `turn_number`
abbrev pub CallKey : Type 0
CallKey = Text × ℕ

-- The counters are those of the usage_snapshot; the dictionaries keep the order of insertion.
pub record UsageTracker (f : Floats) : Type 0 where
  pub started : List (CallKey × f.Amount)
  pub totals : UsageSnapshot f
  pub last_serializations : List (Text × Text)

abbrev pub max_routes : ℕ
max_routes = 32

unfoldable pub key_eq : CallKey → CallKey → Bool
unfolding text_eq
key_eq (s, m) (t, n) = text_eq s t && (m == n)

abbrev pub behind_first {ℓ} : {A : Type ℓ} → List A → List A
behind_first [] = []
behind_first (x ∷ l) = l

-- The characters that two texts share at their front.
unfoldable pub shared_front : Text → Text → ℕ
shared_front [] t = 0
shared_front (c ∷ s) [] = 0
shared_front (c ∷ s) (d ∷ t) = let rest : ℕ = shared_front s t in if c == d then suc rest else 0

abbrev pub route_key : Option Text → Text
route_key none = codes "default"
route_key (some []) = codes "default"
route_key (some (c ∷ s)) = c ∷ s

-- The oldest route leaves for a new one where the table is full.
abbrev pub make_room_at : Option Text → List (Text × Text) → List (Text × Text)
make_room_at (some v) l = l
make_room_at none l = if leb max_routes (length l) then behind_first l else l

unfoldable pub make_room : Text → List (Text × Text) → List (Text × Text)
unfolding text_eq
make_room key l = make_room_at (get_item text_eq key l) l

unfoldable pub extends : Option Text → Text → Bool
unfolding starts_with
extends none serialized = false
extends (some previous) serialized = starts_with serialized previous

unfoldable pub reused : Option Text → Text → ℕ
unfolding shared_front
reused none serialized = 0
reused (some previous) serialized = shared_front previous serialized

module _ (f : Floats) where
  unfoldable pub new_tracker : UsageTracker f
  new_tracker = record {
    started = [];
    totals = record {
      calls = 0;
      failed_calls = 0;
      prompt_tokens = 0;
      cached_tokens = 0;
      completion_tokens = 0;
      reasoning_tokens = 0;
      cost_usd = f.nil;
      llm_seconds = f.nil;
      tool_output_chars = 0;
      prefix_calls = 0;
      prefix_append_only = 0;
      prefix_reused_chars = 0;
      prefix_total_chars = 0;
    };
    last_serializations = [];
  }

  unfoldable pub llm_start : UsageTracker f → CallKey → f.Amount → UsageTracker f
  unfolding key_eq
  llm_start t key now = record t {
    started = set_item key_eq key now t.started;
    totals = record t.totals { calls = t.totals.calls + 1 };
  }

  abbrev seconds_behind : f.Amount → f.Amount → Option f.Amount → f.Amount
  seconds_behind total now none = total
  seconds_behind total now (some began) = f.plus total (f.larger (f.minus now began) f.nil)

  unfoldable pub llm_end : UsageTracker f → CallKey → Bool → f.Amount → UsageTracker f
  unfolding key_eq
  llm_end t key success now = record t {
    started = pop_item key_eq key t.started;
    totals = record t.totals {
      llm_seconds = seconds_behind t.totals.llm_seconds now (get_item key_eq key t.started);
      failed_calls = if not success then t.totals.failed_calls + 1 else t.totals.failed_calls;
    };
  }

  unfoldable pub llm_complete : UsageTracker f → ℕ → ℕ → ℕ → ℕ → f.Amount → UsageTracker f
  llm_complete t prompt cached completion reasoning cost = record t {
    totals = record t.totals {
      prompt_tokens = t.totals.prompt_tokens + prompt;
      cached_tokens = t.totals.cached_tokens + cached;
      completion_tokens = t.totals.completion_tokens + completion;
      reasoning_tokens = t.totals.reasoning_tokens + reasoning;
      cost_usd = f.plus t.totals.cost_usd cost;
    };
  }

  -- The texts are those of the fields stdout, stderr, error and value.
  unfoldable pub tool_output : UsageTracker f → Text → Text → Text → Text → UsageTracker f
  tool_output t stdout stderr error value = record t {
    totals = record t.totals {
      tool_output_chars =
          t.totals.tool_output_chars
          + (length stdout + length stderr + length error + length value);
    };
  }

  -- The messages are serialized; `none` is the error that they cannot be.
  unfoldable pub observe_prefix : UsageTracker f → Option Text → Option Text → UsageTracker f
  unfolding make_room extends reused text_eq
  observe_prefix t none route = t
  observe_prefix t (some serialized) route =
      let key : Text = route_key route in
      let previous : Option Text = get_item text_eq key t.last_serializations in
      record t {
        totals = record t.totals {
          prefix_calls = t.totals.prefix_calls + 1;
          prefix_total_chars = t.totals.prefix_total_chars + length serialized;
          prefix_append_only =
              if extends previous serialized
              then t.totals.prefix_append_only + 1
              else t.totals.prefix_append_only;
          prefix_reused_chars = t.totals.prefix_reused_chars + reused previous serialized;
        };
        last_serializations = set_item text_eq key serialized (make_room key t.last_serializations);
      }

  unfoldable pub usage_snapshot : UsageTracker f → UsageSnapshot f
  usage_snapshot t = t.totals

  -- A dictionary that is loaded, with what its keys hold.
  pub record UsageData : Type 0 where
    pub calls : Option ℤ
    pub failed_calls : Option ℤ
    pub prompt_tokens : Option ℤ
    pub cached_tokens : Option ℤ
    pub completion_tokens : Option ℤ
    pub reasoning_tokens : Option ℤ
    pub cost_usd : Option f.Amount
    pub llm_seconds : Option f.Amount
    pub tool_output_chars : Option ℤ
    pub prefix_calls : Option ℤ
    pub prefix_append_only : Option ℤ
    pub prefix_reused_chars : Option ℤ
    pub prefix_total_chars : Option ℤ

  unfoldable pub to_dict : UsageSnapshot f → UsageData
  to_dict s = record {
    calls = some (pos s.calls);
    failed_calls = some (pos s.failed_calls);
    prompt_tokens = some (pos s.prompt_tokens);
    cached_tokens = some (pos s.cached_tokens);
    completion_tokens = some (pos s.completion_tokens);
    reasoning_tokens = some (pos s.reasoning_tokens);
    cost_usd = some s.cost_usd;
    llm_seconds = some s.llm_seconds;
    tool_output_chars = some (pos s.tool_output_chars);
    prefix_calls = some (pos s.prefix_calls);
    prefix_append_only = some (pos s.prefix_append_only);
    prefix_reused_chars = some (pos s.prefix_reused_chars);
    prefix_total_chars = some (pos s.prefix_total_chars);
  }

  abbrev count_of : Option ℤ → ℕ
  count_of none = 0
  count_of (some (pos n)) = n
  count_of (some (negsuc n)) = 0

  abbrev amount_of : Option f.Amount → f.Amount
  amount_of none = f.larger f.nil f.nil
  amount_of (some x) = f.larger x f.nil

  -- `none` is a dictionary that is missing or empty.
  unfoldable pub load_dict : UsageTracker f → Option UsageData → UsageTracker f
  load_dict t none = t
  load_dict t (some d) = record {
    started = [];
    totals = record {
      calls = count_of d.calls;
      failed_calls = count_of d.failed_calls;
      prompt_tokens = count_of d.prompt_tokens;
      cached_tokens = count_of d.cached_tokens;
      completion_tokens = count_of d.completion_tokens;
      reasoning_tokens = count_of d.reasoning_tokens;
      cost_usd = amount_of d.cost_usd;
      llm_seconds = amount_of d.llm_seconds;
      tool_output_chars = count_of d.tool_output_chars;
      prefix_calls = count_of d.prefix_calls;
      prefix_append_only = count_of d.prefix_append_only;
      prefix_reused_chars = count_of d.prefix_reused_chars;
      prefix_total_chars = count_of d.prefix_total_chars;
    };
    last_serializations = [];
  }
