-- ===== src/Steer.antt =====
-- `SteerQueue` (steer.py): the bounded queue of prompts that wait for the current turn to end.
-- Each method runs under the queue's lock, so that a run of the queue is a sequence of calls.
pub mod Bounds
pub mod Order
mod Tests
use noah_code.Prelude.{
  ℕ, zero, suc, ◌-◌, min, ℤ, pos, negsuc, shift, Bool, true, false, Option, none, some, List, [],
  ◌∷◌, ◌++◌, leb, ltb, ◌==◌, if◌then◌else◌, null, length, get_elem?, take, remove_at, insert_at,
}
use noah_code.Python.Text.{Text, codes, words, join}

pub record SteerItem : Type 0 where
  pub text : Text
  pub attach_paths : List Text
  pub sequence : Option ℕ

pub record SteerQueue : Type 0 where
  pub max_items : ℕ
  pub items : List SteerItem

abbrev pub steer_queue_cap : ℕ
steer_queue_cap = 100

abbrev pub new : ℕ → SteerQueue
new max_items = record { max_items = max_items; items = [] }

abbrev with_items : SteerQueue → List SteerItem → SteerQueue
with_items q l = record q { items = l }

abbrev evict : SteerQueue → List SteerItem → SteerItem → Option (SteerQueue × Option SteerItem)
evict q [] item = none
evict q (oldest ∷ l) item = some (with_items q (l ++ item ∷ []), some oldest)

-- The new queue and the evicted item; `none` is the IndexError of `popleft` on an empty deque.
unfoldable pub push_with_dropped : SteerQueue → SteerItem → Option (SteerQueue × Option SteerItem)
push_with_dropped q item =
    if leb q.max_items (length q.items)
    then evict q q.items item
    else some (with_items q (q.items ++ item ∷ []), none)

abbrev is_some : Option SteerItem → Bool
is_some none = false
is_some (some x) = true

unfoldable pub push : SteerQueue → SteerItem → Option (SteerQueue × Bool)
unfolding push_with_dropped
push q item = elim (push_with_dropped q item) [
  | none ↦ none
  | some (q', dropped) ↦ some (q', is_some dropped)
]

abbrev take_first : SteerQueue → List SteerItem → SteerQueue × Option SteerItem
take_first q [] = (q, none)
take_first q (x ∷ l) = (with_items q l, some x)

unfoldable pub pop : SteerQueue → SteerQueue × Option SteerItem
pop q = take_first q q.items

-- A list without its last item, and that item.
abbrev unsnoc : List SteerItem → List SteerItem × Option SteerItem
unsnoc [] = ([], none)
unsnoc (x ∷ []) = ([], some x)
unsnoc (x ∷ y ∷ l) = let (front, last) = unsnoc (y ∷ l) in (x ∷ front, last)

unfoldable pub pop_last : SteerQueue → SteerQueue × Option SteerItem
pop_last q = let (front, last) = unsnoc q.items in (with_items q front, last)

unfoldable pub clear : SteerQueue → SteerQueue
clear q = with_items q []

unfoldable pub drain : SteerQueue → SteerQueue × List SteerItem
drain q = (with_items q [], q.items)

-- The count and the preview of the first item: its words, cut at sixty characters.
unfoldable pub snapshot : SteerQueue → ℕ × Option Text
snapshot q = elim q.items [
  | [] ↦ (0, none)
  | x ∷ l ↦ (length q.items, some (take 60 (join (codes " ") (words x.text))))
]

-- `none` for a negative index, too
unfoldable pub remove : SteerQueue → ℤ → SteerQueue × Option SteerItem
remove q (negsuc n) = (q, none)
remove q (pos index) =
    if leb (length q.items) index
    then (q, none)
    else (with_items q (remove_at index q.items), get_elem? q.items index)

abbrev pub destination : SteerQueue → ℕ → ℤ → ℕ
destination q index delta = min (shift index delta) (length q.items - 1)

abbrev placed : List SteerItem → ℕ → ℕ → Option SteerItem → List SteerItem
placed l from to none = l
placed l from to (some x) = insert_at to x (remove_at from l)

abbrev moved : List SteerItem → ℕ → ℕ → List SteerItem
moved l from to = placed l from to (get_elem? l from)

unfoldable pub move : SteerQueue → ℤ → ℤ → SteerQueue × Bool
move q (negsuc n) delta = (q, false)
move q (pos index) delta =
    if leb (length q.items) index
    then (q, false)
    else if destination q index delta == index
    then (q, false)
    else (with_items q (moved q.items index (destination q index delta)), true)
