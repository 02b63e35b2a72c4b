-- ===== src/Steer/Order.antt =====
-- The order of the queue and the calls of `SteerQueue` (steer.py) that change it.
use mathlib.Core.List.Perm
use mathlib.Core.List.{Perm}
use noah_code.Prelude.{
  ℕ, zero, suc, ◌≤◌, ◌<◌, ℤ, pos, negsuc, ◌≡◌, arith, true, false, Option, none, some, List, [],
  ◌∷◌, ◌++◌, length, option_list, insert_at, get_elem?, ap, Bool-cases, remove_at, ◌⊎◌, sym, leb,
  subst, inl, leb→le, inr, ◌==◌, refl, ◌-◌,
}
use noah_code.Steer.{
  SteerItem, SteerQueue, push_with_dropped, pop, pop_last, move, destination, evict, take_first,
  unsnoc, moved, placed,
}
use noah_code.Steer.Bounds.{length-remove_at}

-- `push_with_dropped` gives a queue and an evicted item that keep the order.
abbrev Keeps : SteerQueue → SteerItem → Option (SteerQueue × Option SteerItem) → Type 0
Keeps q x o =
    (q' : SteerQueue) × (d : Option SteerItem) × (o ≡ some (q', d))
    × (option_list d ++ q'.items ≡ q.items ++ x ∷ [])

evict-order :
    (q : SteerQueue) (l : List SteerItem) (x : SteerItem)
    → q.items ≡ l
    → 0 < length l
    → Keeps q x (evict q l x)
evict-order q [] x e h = absurd (omega arith)
evict-order q (y ∷ l) x e h =
    (record q { items = l ++ x ∷ [] }, some y, refl, ap (λ k. k ++ x ∷ []) (sym e))

-- A push keeps the order of delivery: where the maximum is not zero it succeeds, and the
-- evicted item, if any, and then the new queue are the old queue and then the new item.
pub push-order :
    (q : SteerQueue) (x : SteerItem)
    → 0 < q.max_items
    → (q' : SteerQueue) × (d : Option SteerItem) × (push_with_dropped q x ≡ some (q', d))
      × (option_list d ++ q'.items ≡ q.items ++ x ∷ [])
unfolding push_with_dropped
push-order q x h = elim (Bool-cases (leb q.max_items (length q.items))) [
  | inl full ↦
      rw full
        (evict-order q q.items x refl (omega (arith, leb→le q.max_items (length q.items) full)))
  | inr room ↦ (record q { items = q.items ++ x ∷ [] }, none, rw room, refl)
]

take_first-order :
    (q : SteerQueue) (l : List SteerItem)
    → q.items ≡ l
    → option_list (take_first q l).1 ++ (take_first q l).0.items ≡ l
take_first-order q [] e = e
take_first-order q (x ∷ l) e = refl

unsnoc-order : (l : List SteerItem) → (unsnoc l).0 ++ option_list (unsnoc l).1 ≡ l
unsnoc-order [] = refl
unsnoc-order (x ∷ []) = refl
unsnoc-order (x ∷ y ∷ l) = ground (arith, unsnoc-order (y ∷ l))

-- `pop` takes from the front, `pop_last` from the back, and neither loses or reorders the rest.
pub pop-order :
    (q : SteerQueue)
    → (option_list (pop q).1 ++ (pop q).0.items ≡ q.items)
      × ((pop_last q).0.items ++ option_list (pop_last q).1 ≡ q.items)
unfolding pop pop_last
pop-order q = (take_first-order q q.items refl, unsnoc-order q.items)

module _ {ℓ} {A : Type ℓ} where
  remove_at-perm :
      (i : ℕ) (l : List A) {x : A} → get_elem? l i ≡ some x → Perm (x ∷ remove_at i l) l
  remove_at-perm i [] e = cc
  remove_at-perm zero (y ∷ l) {x} e =
      let same : y ≡ x = cc in subst (λ z. Perm (z ∷ l) (y ∷ l)) same (Perm.refl (y ∷ l))
  remove_at-perm (suc i) (y ∷ l) {x} e =
      Perm.trans (Perm.swap _ _ _) (Perm.cons y (remove_at-perm i l e))

  insert_at-perm : (i : ℕ) (x : A) (l : List A) → Perm (insert_at i x l) (x ∷ l)
  insert_at-perm zero x l = Perm.refl (x ∷ l)
  insert_at-perm (suc i) x [] = Perm.refl (x ∷ [])
  insert_at-perm (suc i) x (y ∷ l) =
      Perm.trans (Perm.cons y (insert_at-perm i x l)) (Perm.swap _ _ _)

  get_elem?-insert_at :
      (i : ℕ) (x : A) (l : List A) → i ≤ length l → get_elem? (insert_at i x l) i ≡ some x
  get_elem?-insert_at zero x l h = refl
  get_elem?-insert_at (suc i) x [] h = absurd (omega arith)
  get_elem?-insert_at (suc i) x (y ∷ l) h = get_elem?-insert_at i x l (omega arith)

placed-perm : (l : List SteerItem) (i j : ℕ) → Perm (moved l i j) l
placed-perm l i j = go (get_elem? l i) refl
  where
    go : (o : Option SteerItem) → get_elem? l i ≡ o → Perm (placed l i j o) l
    go none e = Perm.refl l
    go (some x) e = Perm.trans (insert_at-perm j x (remove_at i l)) (remove_at-perm i l e)

get_elem?_of_lt {ℓ} :
    {A : Type ℓ} (l : List A) (i : ℕ) → i < length l → (x : A) × (get_elem? l i ≡ some x)
get_elem?_of_lt [] i h = absurd (omega arith)
get_elem?_of_lt (x ∷ l) zero h = (x, refl)
get_elem?_of_lt (x ∷ l) (suc i) h = get_elem?_of_lt l i (omega arith)

moved_at :
    (l : List SteerItem) (i j : ℕ)
    → i < length l
    → j ≤ length l - 1
    → get_elem? (moved l i j) j ≡ get_elem? l i
moved_at l i j h k =
    let (x, e) = get_elem?_of_lt l i h in
    rw e (get_elem?-insert_at j x (remove_at i l) (omega (arith, length-remove_at i l h)))

-- A move of an item of the queue that reports success puts the item at its destination; one
-- that reports failure has changed nothing.
pub move-destination :
    (q : SteerQueue) (index : ℕ) (delta : ℤ)
    → index < length q.items
    → ((move q (pos index) delta).1 ≡ false × ((move q (pos index) delta).0 ≡ q))
      ⊎ (((move q (pos index) delta).1 ≡ true)
          × (get_elem? (move q (pos index) delta).0.items (destination q index delta)
              ≡ get_elem? q.items index))
unfolding move
move-destination q index delta h =
    ground (arith, moved_at q.items index (destination q index delta))

-- `move` loses and adds nothing, whatever its arguments.
pub move-perm : (q : SteerQueue) (index delta : ℤ) → Perm (move q index delta).0.items q.items
unfolding move
move-perm q (negsuc n) delta = Perm.refl q.items
move-perm q (pos i) delta = elim (Bool-cases (leb (length q.items) i)) [
  | inl out ↦ rw out (Perm.refl q.items)
  | inr within ↦ elim (Bool-cases (destination q i delta == i)) [
    | inl same ↦ rw (within, same) (Perm.refl q.items)
    | inr other ↦ rw (within, other) (placed-perm q.items i (destination q i delta))
  ]
]
