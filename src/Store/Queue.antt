-- ===== src/Store/Queue.antt =====
-- The pending rows of the table `inbox` (runtime_state.py) as a queue.
use noah_code.Prelude.{
  ℕ, suc, Bool, true, false, not, Option, none, some, List, [], ◌∷◌, ◌++◌, map, ◌==◌, ◌≡◌, refl, ap,
  ◌∙◌, arith, take, keep,
}
use noah_code.Python.Text.{Text}
use noah_code.Store.Inbox.{
  Status, pending, acknowledged, dropped, InboxRow, InboxRecord, InputState, Inbox, is_pending,
  to_record, discard_row, discard_rows, acknowledge_row, enqueue_inbox, acknowledge_inbox,
  pending_inbox,
}
use Prim.Native.Nat.{zero}
use noah_code.Store.Events.{EventLog}

-- The specification: accepted inputs in the order of their arrival. An input goes to the back, and
-- one leaves when it is acknowledged, dropped or discarded.
pub data Call : Type 0 where
  enqueue : Text → List Text → Option InputState → Option ℕ → Call
  acknowledge : ℕ → Bool → Call

abbrev pub without : ℕ → List InboxRecord → List InboxRecord
without n l = keep (λ r. not (r.sequence == n)) l

abbrev pub discarded : Option ℕ → List InboxRecord → List InboxRecord
discarded none l = l
discarded (some n) l = without n l

pub queue : ℕ → List InboxRecord → List Call → List InboxRecord
queue next l [] = l
queue next l (enqueue text paths state discard ∷ calls) =
    queue (suc next)
      (discarded discard (l ++ record { sequence = next; text = text; attach_paths = paths } ∷ []))
      calls
queue next l (acknowledge n is_dropped ∷ calls) = queue next (without n l) calls

unfoldable pub perform_all : Inbox → List Call → Inbox
perform_all s [] = s
perform_all s (enqueue text paths state discard ∷ calls) =
    perform_all (enqueue_inbox s text paths state discard).0 calls
perform_all s (acknowledge n is_dropped ∷ calls) =
    perform_all (acknowledge_inbox s n is_dropped) calls

-- What the rows stand for.
pub waiting : List InboxRow → List InboxRecord
waiting [] = []
waiting (r ∷ l) = elim r.status [ pending ↦ to_record r ∷ waiting l | _ ↦ waiting l ]

waiting-append : (k l : List InboxRow) → waiting (k ++ l) ≡ waiting k ++ waiting l
unfolding waiting
waiting-append [] l = refl
waiting-append (r ∷ k) l = ground (arith, waiting-append k l)

waiting-discard_row :
    (n : ℕ) (l : List InboxRow) → waiting (map (discard_row n) l) ≡ without n (waiting l)
unfolding waiting
waiting-discard_row n [] = refl
waiting-discard_row n (r ∷ l) = ground (arith, waiting-discard_row n l)

waiting-acknowledge_row :
    (n : ℕ) (s : Status) (l : List InboxRow)
    → is_pending s ≡ false
    → waiting (map (acknowledge_row n s) l) ≡ without n (waiting l)
unfolding waiting
waiting-acknowledge_row n s [] h = refl
waiting-acknowledge_row n pending (r ∷ l) h = ground (arith, h)
waiting-acknowledge_row n acknowledged (r ∷ l) h =
    ground (arith, waiting-acknowledge_row n acknowledged l h)
waiting-acknowledge_row n dropped (r ∷ l) h = ground (arith, waiting-acknowledge_row n dropped l h)

waiting-discard_rows :
    (discard : Option ℕ) (l : List InboxRow)
    → waiting (discard_rows discard l) ≡ discarded discard (waiting l)
waiting-discard_rows none l = refl
waiting-discard_rows (some n) l = waiting-discard_row n l

waiting-enqueue_inbox :
    (s : Inbox) (text : Text) (paths : List Text) (state : Option InputState) (discard : Option ℕ)
    → waiting (enqueue_inbox s text paths state discard).0.rows
      ≡ discarded discard (
          waiting s.rows
          ++ record { sequence = s.next_sequence; text = text; attach_paths = paths } ∷ [])
unfolding enqueue_inbox waiting
waiting-enqueue_inbox s text paths state discard =
    let row : InboxRow = record {
      sequence = s.next_sequence;
      text = text;
      attach_paths = paths;
      status = pending;
    } in
    waiting-discard_rows discard (s.rows ++ row ∷ [])
    ∙ ap (discarded discard) (waiting-append s.rows (row ∷ []))

waiting-acknowledge_inbox :
    (s : Inbox) (n : ℕ) (is_dropped : Bool)
    → waiting (acknowledge_inbox s n is_dropped).rows ≡ without n (waiting s.rows)
unfolding acknowledge_inbox
waiting-acknowledge_inbox s n true = waiting-acknowledge_row n dropped s.rows refl
waiting-acknowledge_inbox s n false = waiting-acknowledge_row n acknowledged s.rows refl

perform_all_lem :
    (s : Inbox) (calls : List Call)
    → waiting (perform_all s calls).rows ≡ queue s.next_sequence (waiting s.rows) calls
unfolding perform_all queue enqueue_inbox acknowledge_inbox
perform_all_lem s [] = refl
perform_all_lem s (enqueue text paths state discard ∷ calls) =
    perform_all_lem (enqueue_inbox s text paths state discard).0 calls
    ∙ ap (λ l. queue (suc s.next_sequence) l calls)
        (waiting-enqueue_inbox s text paths state discard)
perform_all_lem s (acknowledge n is_dropped ∷ calls) =
    perform_all_lem (acknowledge_inbox s n is_dropped) calls
    ∙ ap (λ l. queue s.next_sequence l calls) (waiting-acknowledge_inbox s n is_dropped)

waiting-keep : (l : List InboxRow) → map to_record (keep (λ r. is_pending r.status) l) ≡ waiting l
unfolding waiting
waiting-keep [] = refl
waiting-keep (r ∷ l) = ground (arith, waiting-keep l)

map-take : (n : ℕ) (l : List InboxRow) → map to_record (take n l) ≡ take n (map to_record l)
map-take zero l = refl
map-take (suc n) [] = refl
map-take (suc n) (r ∷ l) = ap (λ k. to_record r ∷ k) (map-take n l)

-- Whatever calls of `enqueue_inbox` and `acknowledge_inbox` are made on an empty inbox,
-- `pending_inbox` then gives the front of the queue of the specification, up to its limit.
pub pending_inbox-queue :
    (log : EventLog) (calls : List Call) (limit : ℕ)
    → pending_inbox
        (perform_all (record { rows = []; next_sequence = 1; input_queue = none; log = log }) calls)
        limit
      ≡ take limit (queue 1 [] calls)
unfolding pending_inbox waiting
pending_inbox-queue log calls limit =
    let s : Inbox = record { rows = []; next_sequence = 1; input_queue = none; log = log } in
    map-take limit (keep (λ r. is_pending r.status) (perform_all s calls).rows)
    ∙ ap (take limit) (waiting-keep (perform_all s calls).rows ∙ perform_all_lem s calls)
