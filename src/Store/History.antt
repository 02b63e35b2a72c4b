-- ===== src/Store/History.antt =====
-- The table `runtime_events` (runtime_state.py) as a window on all events.
use noah_code.Prelude.{
  drop, length-drop, drop-append, drop-drop, length-append, ℕ, suc, ◌-◌, List, [], ◌∷◌, ◌++◌, ◌≡◌,
  ap, sym, ◌∙◌, arith, length,
}
use noah_code.Python.Text.{Text}
use noah_code.Store.Events.{Event, EventLog, Value, event}
use mathlib.Core.List.{append-nil, append_assoc}

-- The newest rows, at most so many.
abbrev pub newest : ℕ → List Event → List Event
newest n l = drop (length l - n) l

-- All events that were ever added, without a bound, and the number of the next.
pub history : ℕ → List (Text × List (Text × Value)) → List Event
history next [] = []
history next ((kind, payload) ∷ l) =
    record { sequence = next; kind = kind; payload = payload } ∷ history (suc next) l

unfoldable pub add_events : EventLog → List (Text × List (Text × Value)) → EventLog
add_events log [] = log
add_events log ((kind, payload) ∷ l) = add_events (event log kind payload) l

newest-nil : (n : ℕ) → newest n [] ≡ []
unfolding drop
newest-nil n = let none_left : 0 - n ≡ 0 = omega arith in ap (λ k. drop k []) none_left

newest-append :
    (n : ℕ) (l : List Event) (e : Event) → newest n (newest n l ++ e ∷ []) ≡ newest n (l ++ e ∷ [])
newest-append n l e =
    ap (newest n) (sym (drop-append (length l - n) l e (omega arith)))
    ∙ drop-drop (length (drop (length l - n) (l ++ e ∷ [])) - n) (length l - n)
        (length (l ++ e ∷ []) - n) (l ++ e ∷ [])
        (omega (arith, length-drop (length l - n) (l ++ e ∷ []), length-append l (e ∷ [])))

add_events_lem :
    (log : EventLog) (before : List Event) (l : List (Text × List (Text × Value)))
    → log.events ≡ newest log.max_events before
    → (add_events log l).events ≡ newest log.max_events (before ++ history log.next_sequence l)
unfolding add_events history event
add_events_lem log before [] h = h ∙ ap (newest log.max_events) (sym (append-nil before))
add_events_lem log before ((kind, payload) ∷ l) h =
    let row : Event = record { sequence = log.next_sequence; kind = kind; payload = payload } in
    add_events_lem (event log kind payload) (before ++ row ∷ []) l
      (ap (λ k. newest log.max_events (k ++ row ∷ [])) h ∙ newest-append log.max_events before row)
    ∙ ap (newest log.max_events)
        (append_assoc before (row ∷ []) (history (suc log.next_sequence) l))

-- Whatever events are added to an empty table, it holds the newest ones, as many as its maximum, in
-- the order in which they were added and each with the sequence number of its addition.
pub add_events-newest :
    (max_events : ℕ) (l : List (Text × List (Text × Value)))
    → (add_events (record { events = []; next_sequence = 1; max_events = max_events }) l).events
      ≡ newest max_events (history 1 l)
unfolding add_events
add_events-newest max_events l =
    add_events_lem (record { events = []; next_sequence = 1; max_events = max_events }) [] l
      (sym (newest-nil max_events))
