-- ===== src/Steer/Tests.antt =====
-- Runs of the queue, and the theorems on it applied to them.
use mathlib.Core.List.{Perm}
use noah_code.Steer.{
  SteerItem, SteerQueue, new, push, push_with_dropped, move, snapshot, Option, codes, words, pop,
  pop_last, destination,
}
use noah_code.Prelude.{
  String, ◌∷◌, Option, option_list, [], pos, ◌≡◌, none, some, negsuc, false, ◌++◌, true, refl, ◌⊎◌,
  arith, get_elem?,
}
use noah_code.Steer.Bounds.{IsBounded, perform_all, push_call, pop_call, perform_all-new}
use noah_code.Python.Text.{codes, words, join}
use noah_code.Steer.Order.{push-order, pop-order, move-destination, move-perm}

abbrev say : String → SteerItem
say s = record { text = codes s; attach_paths = []; sequence = none }

abbrev two_of_two : SteerQueue
two_of_two = record { max_items = 2; items = say "a" ∷ say "b" ∷ [] }

evicts :
    push two_of_two (say "c") ≡ some (record two_of_two { items = say "b" ∷ say "c" ∷ [] }, true)
unfolding push push_with_dropped
evicts = refl

no_room : push_with_dropped (new 0) (say "c") ≡ none
unfolding push_with_dropped
no_room = refl

moves_up :
    move two_of_two (pos 1) (negsuc 0)
    ≡ (record two_of_two { items = say "b" ∷ say "a" ∷ [] }, true)
unfolding move
moves_up = refl

previews : snapshot (record two_of_two { items = say " a  b " ∷ [] }) ≡ (1, some (codes "a b"))
unfolding snapshot words join
previews = refl

perform_all-new_example :
    IsBounded (perform_all (new 1) (push_call (say "a") ∷ push_call (say "b") ∷ pop_call ∷ []))
perform_all-new_example =
    perform_all-new 1 (push_call (say "a") ∷ push_call (say "b") ∷ pop_call ∷ [])

keeps_push_order :
    (q' : SteerQueue) × (d : Option SteerItem) × (push_with_dropped two_of_two (say "c")
      ≡ some (q', d))
    × (option_list d ++ q'.items ≡ two_of_two.items ++ say "c" ∷ [])
keeps_push_order = push-order two_of_two (say "c") (omega arith)

pops_keep_order :
    (option_list (pop two_of_two).1 ++ (pop two_of_two).0.items ≡ two_of_two.items)
    × ((pop_last two_of_two).0.items ++ option_list (pop_last two_of_two).1 ≡ two_of_two.items)
pops_keep_order = pop-order two_of_two

puts_at_destination :
    ((move two_of_two (pos 0) (pos 1)).1 ≡ false
      × ((move two_of_two (pos 0) (pos 1)).0 ≡ two_of_two))
    ⊎ (((move two_of_two (pos 0) (pos 1)).1 ≡ true)
        × (get_elem? (move two_of_two (pos 0) (pos 1)).0.items (destination two_of_two 0 (pos 1))
            ≡ get_elem? two_of_two.items 0))
puts_at_destination = move-destination two_of_two 0 (pos 1) (omega arith)

moves_lose_nothing : Perm (move two_of_two (pos 0) (pos 1)).0.items two_of_two.items
moves_lose_nothing = move-perm two_of_two (pos 0) (pos 1)
