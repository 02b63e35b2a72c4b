-- ===== src/Budget/Sticky.antt =====
-- Runs of the calls of `BudgetGuard` (budget.py), and what they keep.
use noah_code.Prelude.{◌≡◌, ◌≤◌, Option, some, List, [], ◌∷◌, arith}
use noah_code.Python.Text.{Text}
use noah_code.Budget.{
  Floats, BudgetGuard, TokenReading, Clock, total_tokens, add_usage, sync_cost_usd,
  observe_cost_usd, enforce,
}

-- A call that a running session makes of its guard; `load_state` comes before the first of them.
pub data Call (f : Floats) : Type 0 where
  usage_call : TokenReading → TokenReading → Option f.Amount → Call f
  sync_call : Option f.Amount → Clock f → Call f
  observe_call : Option f.Amount → Clock f → Call f
  enforce_call : Clock f → Call f

module _ (f : Floats) where
  -- The guard that a call leaves, also where it raises an error.
  unfoldable pub perform : BudgetGuard f → Call f → BudgetGuard f
  unfolding add_usage sync_cost_usd observe_cost_usd enforce
  perform g (usage_call p c cost) = add_usage f g p c cost
  perform g (sync_call total now) = (sync_cost_usd f g total now).0
  perform g (observe_call total now) = observe_cost_usd f g total now
  perform g (enforce_call now) = (enforce f g now).0

  unfoldable pub perform_all : BudgetGuard f → List (Call f) → BudgetGuard f
  unfolding perform
  perform_all g [] = g
  perform_all g (c ∷ l) = perform_all (perform g c) l

  perform-exceeded :
      (g : BudgetGuard f) (c : Call f) (m : Text)
      → g.exceeded ≡ some m
      → (perform g c).exceeded ≡ some m
  unfolding perform
  perform-exceeded g (usage_call p c cost) m h = h
  perform-exceeded g (sync_call total now) m h = ground arith
  perform-exceeded g (observe_call total now) m h = ground arith
  perform-exceeded g (enforce_call now) m h = ground arith

  perform_all-exceeded :
      (l : List (Call f)) (g : BudgetGuard f) (m : Text)
      → g.exceeded ≡ some m
      → (perform_all g l).exceeded ≡ some m
  unfolding perform_all
  perform_all-exceeded [] g m h = h
  perform_all-exceeded (c ∷ l) g m h =
      perform_all-exceeded l (perform g c) m (perform-exceeded g c m h)

  enforce-raised :
      (g : BudgetGuard f) (now : Clock f) (m : Text)
      → (enforce f g now).1 ≡ some m
      → (enforce f g now).0.exceeded ≡ some m
  unfolding enforce
  enforce-raised g now m h = ground arith

  enforce-exceeded :
      (g : BudgetGuard f) (now : Clock f) (m : Text)
      → g.exceeded ≡ some m
      → (enforce f g now).1 ≡ some m
  unfolding enforce
  enforce-exceeded g now m h = ground arith

  -- Once `enforce` has raised an error, it raises the same one at any later time, whatever
  -- usage and costs are reported in between by `add_usage`, `sync_cost_usd` and
  -- `observe_cost_usd`.
  pub enforce-sticky :
      (g : BudgetGuard f) (now later : Clock f) (m : Text) (l : List (Call f))
      → (enforce f g now).1 ≡ some m
      → (enforce f (perform_all (enforce f g now).0 l) later).1 ≡ some m
  enforce-sticky g now later m l h =
      enforce-exceeded (perform_all (enforce f g now).0 l) later m
        (perform_all-exceeded l (enforce f g now).0 m (enforce-raised g now m h))

  perform-total_tokens :
      (g : BudgetGuard f) (c : Call f) → total_tokens f g ≤ total_tokens f (perform g c)
  unfolding perform total_tokens
  perform-total_tokens g (usage_call p c cost) = omega arith
  perform-total_tokens g (sync_call total now) = ground arith
  perform-total_tokens g (observe_call total now) = ground arith
  perform-total_tokens g (enforce_call now) = ground arith

  -- No sequence of calls of `add_usage`, `sync_cost_usd`, `observe_cost_usd` and `enforce`
  -- lowers the count of tokens, whatever the provider reports.
  pub perform_all-total_tokens :
      (l : List (Call f)) (g : BudgetGuard f) → total_tokens f g ≤ total_tokens f (perform_all g l)
  unfolding perform_all
  perform_all-total_tokens [] g = omega arith
  perform_all-total_tokens (c ∷ l) g =
      omega (arith, perform-total_tokens g c, perform_all-total_tokens l (perform g c))
