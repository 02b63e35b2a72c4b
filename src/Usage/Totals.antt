-- ===== src/Usage/Totals.antt =====
-- What the totals of `UsageTracker` (usage.py) say, and how they are saved.
use noah_code.Prelude.{
  ℕ, ◌+◌, ◌≤◌, Bool, true, Option, none, some, List, [], ◌∷◌, ◌≡◌, refl, ap, ◌∙◌, arith, leb,
  length, Bool-cases, inl, inr,
}
use noah_code.Python.Text.{Text, text_eq}
use noah_code.Budget.{Floats}
use noah_code.Usage.{
  UsageTracker, CallKey, max_routes, behind_first, shared_front, make_room, reused, route_key,
  llm_start, llm_end, llm_complete, tool_output, observe_prefix, usage_snapshot, to_dict, load_dict,
  make_room_at, set_item, get_item,
}
use noah_code.Python.Dict.{set_item, get_item}

pub data UsageCall (f : Floats) : Type 0 where
  start_call : CallKey → f.Amount → UsageCall f
  end_call : CallKey → Bool → f.Amount → UsageCall f
  complete_call : ℕ → ℕ → ℕ → ℕ → f.Amount → UsageCall f
  output_call : Text → Text → Text → Text → UsageCall f
  prefix_call : Option Text → Option Text → UsageCall f

shared_front-bound : (s t : Text) → shared_front s t ≤ length t
unfolding shared_front
shared_front-bound [] t = omega arith
shared_front-bound (c ∷ s) [] = omega arith
shared_front-bound (c ∷ s) (d ∷ t) = ground (arith, shared_front-bound s t)

length-set_item :
    (key value : Text) (l : List (Text × Text))
    → length (set_item text_eq key value l) ≤ length l + 1
length-set_item key value [] = omega arith
length-set_item key value ((k, v) ∷ l) = ground (arith, length-set_item key value l)

length-set_item_found :
    (key value v : Text) (l : List (Text × Text))
    → get_item text_eq key l ≡ some v
    → length (set_item text_eq key value l) ≤ length l
length-set_item_found key value v [] h = ground (arith, h)
length-set_item_found key value v ((k, w) ∷ l) h = elim (Bool-cases (text_eq k key)) [
  | inl same ↦ rw same (omega arith)
  | inr other ↦
      rw other (omega (arith, length-set_item_found key value v l (ground (arith, h, other))))
]

length-behind_first :
    (l : List (Text × Text))
    → leb max_routes (length l) ≡ true
    → length (behind_first l) + 1 ≤ length l
length-behind_first [] h = ground (arith, h)
length-behind_first (x ∷ l) h = omega arith

length-routes_at :
    (key value : Text) (o : Option Text) (l : List (Text × Text))
    → get_item text_eq key l ≡ o
    → length l ≤ max_routes
    → length (set_item text_eq key value (make_room_at o l)) ≤ max_routes
length-routes_at key value (some v) l e h = omega (arith, length-set_item_found key value v l e, h)
length-routes_at key value none l e h = elim (Bool-cases (leb max_routes (length l))) [
  | inl full ↦
      rw full
        (omega (arith, length-set_item key value (behind_first l), length-behind_first l full, h))
  | inr room ↦ rw room (ground (arith, length-set_item key value l, room))
]

module _ (f : Floats) where
  unfoldable pub perform : UsageTracker f → UsageCall f → UsageTracker f
  unfolding llm_start llm_end llm_complete tool_output observe_prefix
  perform t (start_call key now) = llm_start f t key now
  perform t (end_call key success now) = llm_end f t key success now
  perform t (complete_call p c o r cost) = llm_complete f t p c o r cost
  perform t (output_call a b c d) = tool_output f t a b c d
  perform t (prefix_call serialized route) = observe_prefix f t serialized route

  unfoldable pub perform_all : UsageTracker f → List (UsageCall f) → UsageTracker f
  unfolding perform
  perform_all t [] = t
  perform_all t (c ∷ l) = perform_all (perform t c) l

  -- No more requests extend the one before them than there are, no more characters are reused than
  -- sent, and no more routes are kept than the maximum.
  abbrev pub IsSound : UsageTracker f → Type 0
  IsSound t =
      (t.totals.prefix_append_only ≤ t.totals.prefix_calls)
      × (t.totals.prefix_reused_chars ≤ t.totals.prefix_total_chars)
      × (length t.last_serializations ≤ max_routes)

  reused-bound : (previous : Option Text) (s : Text) → reused previous s ≤ length s
  unfolding reused
  reused-bound none s = omega arith
  reused-bound (some p) s = shared_front-bound p s

  observe_prefix-IsSound :
      (t : UsageTracker f) (s route : Option Text)
      → IsSound t
      → IsSound (observe_prefix f t s route)
  unfolding observe_prefix
  observe_prefix-IsSound t none route h = h
  observe_prefix-IsSound t (some s) route h =
      let key : Text = route_key route in
      let previous : Option Text = get_item text_eq key t.last_serializations in
      (
        ground (arith, h.0),
        omega (arith, h.1, reused-bound previous s),
        unfold make_room in length-routes_at key s previous t.last_serializations refl h.2,
      )

  perform-IsSound : (t : UsageTracker f) (c : UsageCall f) → IsSound t → IsSound (perform t c)
  unfolding perform llm_start llm_end llm_complete tool_output
  perform-IsSound t (start_call key now) h = h
  perform-IsSound t (end_call key success now) h = h
  perform-IsSound t (complete_call p c o r cost) h = h
  perform-IsSound t (output_call a b c d) h = h
  perform-IsSound t (prefix_call s route) h = observe_prefix-IsSound t s route h

  -- Whatever calls are made on a tracker of which this holds: no more requests extend the one before
  -- them than there are, no more characters are reused than sent, and at most 32 routes are kept.
  pub perform_all-IsSound :
      (t : UsageTracker f) (l : List (UsageCall f)) → IsSound t → IsSound (perform_all t l)
  unfolding perform_all
  perform_all-IsSound t [] h = h
  perform_all-IsSound t (c ∷ l) h = perform_all-IsSound (perform t c) l (perform-IsSound t c h)

  -- What a tracker shows is what it showed when it was saved, where its cost and its time are not
  -- negative, whatever it was before it was loaded.
  pub load_dict-to_dict :
      (t s : UsageTracker f)
      → f.larger s.totals.cost_usd f.nil ≡ s.totals.cost_usd
      → f.larger s.totals.llm_seconds f.nil ≡ s.totals.llm_seconds
      → usage_snapshot f (load_dict f t (some (to_dict f (usage_snapshot f s))))
        ≡ usage_snapshot f s
  unfolding load_dict to_dict usage_snapshot
  load_dict-to_dict t s cost seconds =
      ap (λ x. record s.totals { cost_usd = x; llm_seconds = f.larger s.totals.llm_seconds f.nil })
        cost
      ∙ ap (λ x. record s.totals { llm_seconds = x }) seconds
