-- ===== src/Steer/Bounds.antt =====
-- Runs of the calls of `SteerQueue` (steer.py), and the size of the queue.
use noah_code.Prelude.{
  ℕ, zero, suc, ◌≤◌, ◌<◌, ℤ, pos, negsuc, ◌≡◌, refl, arith, Option, none, some, List, [], ◌∷◌,
  length, length-append, remove_at, insert_at, get_elem?, ap,
}
use noah_code.Steer.{
  SteerItem, SteerQueue, new, push_with_dropped, pop, pop_last, clear, drain, remove, move,
  destination, unsnoc, moved, evict, placed, take_first,
}

module _ {ℓ} {A : Type ℓ} where
  pub length-remove_at :
      (i : ℕ) (l : List A) → i < length l → suc (length (remove_at i l)) ≡ length l
  length-remove_at i [] h = absurd (omega arith)
  length-remove_at zero (x ∷ l) h = refl
  length-remove_at (suc i) (x ∷ l) h = omega (arith, length-remove_at i l (omega arith))

  length-insert_at : (i : ℕ) (v : A) (l : List A) → length (insert_at i v l) ≡ suc (length l)
  length-insert_at zero v l = refl
  length-insert_at (suc i) v [] = refl
  length-insert_at (suc i) v (x ∷ l) = omega (arith, length-insert_at i v l)

length-unsnoc : (l : List SteerItem) → length (unsnoc l).0 ≤ length l
length-unsnoc [] = omega arith
length-unsnoc (x ∷ []) = omega arith
length-unsnoc (x ∷ y ∷ l) = omega (arith, length-unsnoc (y ∷ l))

length-moved_some :
    (x : SteerItem) (l : List SteerItem) (i j : ℕ)
    → i < length l
    → length (insert_at j x (remove_at i l)) ≡ length l
length-moved_some x l i j h =
    omega (arith, length-insert_at j x (remove_at i l), length-remove_at i l h)

length-moved : (l : List SteerItem) (i j : ℕ) → i < length l → length (moved l i j) ≡ length l
length-moved l i j h = length-placed (get_elem? l i)
  where
    length-placed : (o : Option SteerItem) → length (placed l i j o) ≡ length l
    length-placed none = refl
    length-placed (some x) = length-moved_some x l i j h

-- One call of a method that changes the queue.
pub data Call : Type 0 where
  push_call : SteerItem → Call
  pop_call pop_last_call clear_call drain_call : Call
  remove_call : ℤ → Call
  move_call : ℤ → ℤ → Call

-- The queue that the call leaves; an IndexError leaves it as it was.
abbrev after_push : SteerQueue → Option (SteerQueue × Option SteerItem) → SteerQueue
after_push q none = q
after_push q (some (q', dropped)) = q'

unfoldable pub perform : SteerQueue → Call → SteerQueue
unfolding push_with_dropped pop pop_last clear drain remove move
perform q (push_call x) = after_push q (push_with_dropped q x)
perform q pop_call = (pop q).0
perform q pop_last_call = (pop_last q).0
perform q clear_call = clear q
perform q drain_call = (drain q).0
perform q (remove_call i) = (remove q i).0
perform q (move_call i d) = (move q i d).0

pub perform_all : SteerQueue → List Call → SteerQueue
perform_all q [] = q
perform_all q (c ∷ l) = perform_all (perform q c) l

length-evict :
    (q : SteerQueue) (l : List SteerItem) (x : SteerItem)
    → length l ≤ q.max_items
    → q.items ≡ l
    → length (after_push q (evict q l x)).items ≤ q.max_items
length-evict q [] x h e = rw e h
length-evict q (y ∷ l) x h e = omega (arith, length-append l (x ∷ []))

pub record IsBounded (q : SteerQueue) : Type 0 where
  pub within : length q.items ≤ q.max_items

take_first-IsBounded :
    (q : SteerQueue) (l : List SteerItem) → q.items ≡ l → IsBounded q → IsBounded (take_first q l).0
take_first-IsBounded q [] e h = h
take_first-IsBounded q (x ∷ l) e h = record { within = omega (arith, ap length e, h.within) }

perform-IsBounded : (c : Call) (q : SteerQueue) → IsBounded q → IsBounded (perform q c)
unfolding perform
perform-IsBounded (push_call x) q h = record {
  within = ground (arith, length-evict q q.items x, length-append q.items (x ∷ []));
}
perform-IsBounded pop_call q h = take_first-IsBounded q q.items refl h
perform-IsBounded pop_last_call q h = record { within = omega (arith, length-unsnoc q.items) }
perform-IsBounded clear_call q h = omega arith
perform-IsBounded drain_call q h = omega arith
perform-IsBounded (remove_call (negsuc n)) q h = h
perform-IsBounded (remove_call (pos i)) q h = ground (arith, length-remove_at i q.items)
perform-IsBounded (move_call (negsuc n) d) q h = h
perform-IsBounded (move_call (pos i) d) q h =
    ground (arith, length-moved q.items i (destination q i d))

perform_all-IsBounded : (l : List Call) (q : SteerQueue) → IsBounded q → IsBounded (perform_all q l)
unfolding perform_all
perform_all-IsBounded [] q h = h
perform_all-IsBounded (c ∷ l) q h = perform_all-IsBounded l (perform q c) (perform-IsBounded c q h)

-- Whatever calls are made on a new queue, it holds no more items than its maximum.
pub perform_all-new : (max_items : ℕ) (l : List Call) → IsBounded (perform_all (new max_items) l)
perform_all-new max_items l = perform_all-IsBounded l (new max_items) (omega arith)
