-- ===== src/Store/Inbox.antt =====
-- The table `inbox` (runtime_state.py) and the queue's row of the table `state`.
use noah_code.Prelude.{
  ℕ, suc, Bool, true, false, ◌&&◌, Option, none, some, List, [], ◌∷◌, ◌++◌, map, ◌==◌,
  if◌then◌else◌, take, keep,
}
use noah_code.Python.Text.{Text, codes}
use noah_code.Store.Events.{EventLog, number, event}

pub data Status : Type 0 where
  pending acknowledged dropped : Status

abbrev pub is_pending : Status → Bool
is_pending pending = true
is_pending _ = false

pub record InboxRow : Type 0 where
  pub sequence : ℕ
  pub text : Text
  pub attach_paths : List Text
  pub status : Status

pub record InboxRecord : Type 0 where
  pub sequence : ℕ
  pub text : Text
  pub attach_paths : List Text

-- `input_state`: its field `order`, and the others as one text.
pub record InputState : Type 0 where
  pub order : List ℕ
  pub others : Text

-- `rows` in the order of `sequence`, what AUTOINCREMENT gives next, the row `input_queue` of the
-- table `state`, and the events.
pub record Inbox : Type 0 where
  pub rows : List InboxRow
  pub next_sequence : ℕ
  pub input_queue : Option InputState
  pub log : EventLog

abbrev pub set_status : Status → InboxRow → InboxRow
set_status s r = record r { status = s }

-- UPDATE inbox SET status='dropped' WHERE sequence=?
abbrev pub discard_row : ℕ → InboxRow → InboxRow
discard_row n r = if r.sequence == n then set_status dropped r else r

abbrev pub discard_rows : Option ℕ → List InboxRow → List InboxRow
discard_rows none rows = rows
discard_rows (some n) rows = map (discard_row n) rows

abbrev queued : ℕ → Option InputState → Option InputState → Option InputState
queued sequence none old = old
queued sequence (some s) old = some (record s { order = s.order ++ sequence ∷ [] })

-- The event is added with errors suppressed.
unfoldable pub enqueue_inbox : Inbox → Text → List Text → Option InputState → Option ℕ → Inbox × ℕ
enqueue_inbox s text attach_paths input_state discard_sequence =
    let row : InboxRow = record {
      sequence = s.next_sequence;
      text = text;
      attach_paths = attach_paths;
      status = pending;
    } in
    (
      record {
        rows = discard_rows discard_sequence (s.rows ++ row ∷ []);
        next_sequence = suc s.next_sequence;
        input_queue = queued s.next_sequence input_state s.input_queue;
        log = event s.log (codes "inbox.queued") ((codes "sequence", number s.next_sequence) ∷ []);
      },
      s.next_sequence,
    )

abbrev pub to_record : InboxRow → InboxRecord
to_record r = record { sequence = r.sequence; text = r.text; attach_paths = r.attach_paths }

unfoldable pub pending_inbox : Inbox → ℕ → List InboxRecord
pending_inbox s limit = map to_record (take limit (keep (λ r. is_pending r.status) s.rows))

abbrev pub acknowledge_row : ℕ → Status → InboxRow → InboxRow
acknowledge_row n s r = if r.sequence == n && is_pending r.status then set_status s r else r

abbrev status_of : Bool → Status × Text
status_of true = (dropped, codes "inbox.dropped")
status_of false = (acknowledged, codes "inbox.acknowledged")

unfoldable pub acknowledge_inbox : Inbox → ℕ → Bool → Inbox
acknowledge_inbox s sequence is_dropped =
    let (status, kind) = status_of is_dropped in
    record s {
      rows = map (acknowledge_row sequence status) s.rows;
      log = event s.log kind ((codes "sequence", number sequence) ∷ []);
    }
