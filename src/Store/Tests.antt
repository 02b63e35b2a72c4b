-- ===== src/Store/Tests.antt =====
-- Runs of the tables, and the theorems on them applied to them.
use noah_code.Prelude.{
  ℕ, String, true, false, none, some, List, [], ◌∷◌, ◌≡◌, refl, take, keep, drop,
}
use noah_code.Python.Text.{Text, text_eq, codes}
use noah_code.Files.{File, put_file}
use noah_code.Store.Table.{find_row}
use noah_code.Store.Events.{EventLog, Value, event}
use noah_code.Store.History.{newest, history, add_events, add_events-newest}
use noah_code.Store.Inbox
use noah_code.Store.Queue
use noah_code.Store.Effects.{Effects, effect_key_of, begin_effect, complete_effect}
use noah_code.Store.Once
use noah_code.Store.Interactions
use noah_code.Store.Answers
use noah_code.Store.FileOperations.{
  FileOperation, OperationState, started, committed, Recovery, recover_file_operations, is_started,
  path_of,
}
use noah_code.Store.Chronology.{IsChronological, oldest_preimage}
use noah_code.Store.Recovery.{recover_file_operations-oldest}

abbrev no_events : EventLog
no_events = record { events = []; next_sequence = 1; max_events = 2 }

abbrev ticks : List (Text × List (Text × Value))
ticks = (codes "a", []) ∷ (codes "b", []) ∷ (codes "c", []) ∷ []

keeps_two :
    (add_events no_events ticks).events
    ≡ record { sequence = 2; kind = codes "b"; payload = [] }
      ∷ record { sequence = 3; kind = codes "c"; payload = [] }
      ∷ []
unfolding add_events event drop
keeps_two = refl

add_events-newest_example : (add_events no_events ticks).events ≡ newest 2 (history 1 ticks)
add_events-newest_example = add_events-newest 2 ticks

-- Two inputs, of which the second replaces the first, and a third.
abbrev inputs : List Queue.Call
inputs =
    Queue.enqueue (codes "one") [] none none
    ∷ Queue.enqueue (codes "two") [] (some (record { order = []; others = [] })) (some 1)
    ∷ Queue.enqueue (codes "three") [] none none
    ∷ Queue.acknowledge 3 false
    ∷ []

abbrev empty_inbox : Inbox.Inbox
empty_inbox = record { rows = []; next_sequence = 1; input_queue = none; log = no_events }

leaves_two :
    Inbox.pending_inbox (Queue.perform_all empty_inbox inputs) 10
    ≡ record { sequence = 2; text = codes "two"; attach_paths = [] } ∷ []
unfolding Inbox.pending_inbox Queue.perform_all Inbox.enqueue_inbox Inbox.acknowledge_inbox
leaves_two = refl

pending_inbox-queue_example :
    Inbox.pending_inbox (Queue.perform_all empty_inbox inputs) 10
    ≡ take 10 (Queue.queue 1 [] inputs)
pending_inbox-queue_example = Queue.pending_inbox-queue no_events inputs 10

-- A hash without collisions.
abbrev hash_of : Text → Text
hash_of t = t

abbrev no_effects : Effects
no_effects = record { rows = []; log = no_events }

abbrev the_key : Text
the_key = effect_key_of hash_of (codes "git") (codes "origin") (codes "{}")

abbrev other_calls : List Once.Call
other_calls =
    Once.begins (codes "git") (codes "fork") (codes "{}")
    ∷ Once.fails (effect_key_of hash_of (codes "git") (codes "fork") (codes "{}")) (codes "refused")
    ∷ Once.begins (codes "git") (codes "origin") (codes "{}")
    ∷ []

abbrev done_effects : Effects
done_effects =
    complete_effect (begin_effect hash_of no_effects (codes "git") (codes "origin") (codes "{}")).0
      the_key (codes "7")

begin_effect-once_example :
    begin_effect hash_of
      (Once.perform_all hash_of done_effects other_calls)
      (codes "git")
      (codes "origin")
      (codes "{}")
    ≡ (Once.perform_all hash_of done_effects other_calls, the_key, true, some (codes "7"), false)
unfolding text_eq
begin_effect-once_example =
    Once.begin_effect-once hash_of no_effects (codes "git") (codes "origin") (codes "{}") 55 []
      other_calls (tt, (refl, (tt, tt)))

abbrev question : Interactions.Interaction
question = record {
  interaction_id = codes "q";
  kind = codes "ask";
  request = codes "{}";
  state = Interactions.pending;
  result = none;
}

abbrev answers : List Answers.Call
answers =
    Answers.resolves (codes "q") (codes "no") (codes "resolved")
    ∷ Answers.interrupts
    ∷ Answers.begins (codes "ask") (codes "{}") (codes "r") []
    ∷ []

resolve_interaction-first_example :
    find_row Interactions.id_of (codes "q") (
      Answers.perform_all
        (Interactions.resolve_interaction
          (question ∷ [])
          (codes "q")
          (codes "yes")
          (codes "resolved"))
        answers)
    ≡ some (Interactions.resolved (codes "resolved") (codes "yes") question)
unfolding text_eq Interactions.is_pending
resolve_interaction-first_example =
    Answers.resolve_interaction-first (question ∷ []) (codes "q") (codes "yes") (codes "resolved")
      question answers refl refl refl (tt, (tt, (refl, tt)))

abbrev say : String → File
say s = record { content = codes s; mode = 0o644 }

abbrev write_of : String → String → OperationState → ℕ → FileOperation
write_of id before state now = record {
  operation_id = codes id;
  operation_group = codes "g";
  path = codes "a.py";
  existed_before = true;
  pre_bytes = some (codes before);
  pre_mode = some 0o644;
  pre_hash = none;
  post_hash = none;
  state = state;
  created_at = now;
}

-- One write is committed, two on the same path and one of the same patch on another are under way.
abbrev interrupted : Recovery
interrupted = record {
  rows =
      write_of "1" "one" committed 1
      ∷ write_of "2" "two" started 2
      ∷ write_of "3" "three" started 3
      ∷ record (write_of "4" "four" started 3) { path = codes "b.py" }
      ∷ [];
  files = put_file (λ q. none) (codes "a.py") (some (say "torn"));
  recovery_dir = codes "recovery";
  backups = [];
  log = no_events;
}

abbrev recovered_state : Recovery
recovered_state = (recover_file_operations interrupted).0

recover_file_operations-oldest_example :
    (recover_file_operations recovered_state ≡ (recovered_state, []))
    × ((p : Text)
        → recovered_state.files p
          ≡ oldest_preimage
              (interrupted.files p)
              (find_row path_of p (keep is_started interrupted.rows)))
unfolding IsChronological text_eq
recover_file_operations-oldest_example =
    recover_file_operations-oldest interrupted
      ((refl, (refl, (refl, tt))), ((refl, (refl, tt)), ((refl, tt), (tt, tt))))
