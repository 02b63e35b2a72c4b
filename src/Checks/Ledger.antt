-- ===== src/Checks/Ledger.antt =====
-- `CheckLedger`: a bounded ledger of check runs. The fingerprint of the workspace, the clock, the
-- redaction of texts and whether the storage takes a write are arguments of the calls.
use noah_code.Prelude.{
  zero, suc, pos, [], none, ◌++◌, not, ◌&&◌, ℕ, List, Option, Bool, ℤ, ◌∷◌, false, map,
  if◌then◌else◌, ltb, ◌==◌, some, true, length, any,
}
use noah_code.Python.Text.{Text, text_eq}
use noah_code.Checks.Label.{check_label}

pub record CheckRecord (T : Type 0) : Type 0 where
  pub identity : ℕ
  pub command : Text
  pub label : Text
  pub source : Text
  pub started_at : T
  pub start_revision : Option Text
  pub cwd : Option Text
  pub returncode : Option ℤ
  pub finished_at : Option T
  pub end_revision : Option Text

-- `identities` counts the records that were made, so that a caller can name one that it holds.
pub record CheckLedger (T : Type 0) : Type 0 where
  pub records : List (CheckRecord T)
  pub stored : List (CheckRecord T)
  pub identities : ℕ

pub data CheckState : Type 0 where
  running incomplete unknown stale passed failed : CheckState

abbrev pub capacity : ℕ
capacity = 512

abbrev pub option_text_eq : Option Text → Option Text → Bool
option_text_eq none none = true
option_text_eq (some a) (some b) = text_eq a b
option_text_eq _ _ = false

abbrev pub is_zero : ℤ → Bool
is_zero (pos zero) = true
is_zero _ = false

abbrev pub drop_first : {A : Type 0} → List A → List A
drop_first [] = []
drop_first (x ∷ l) = l

module _ (T : Type 0) where
  unfoldable pub persist : Bool → CheckLedger T → CheckLedger T
  persist available ledger = if available then record ledger { stored = ledger.records } else ledger

  -- A deque with `maxlen`: what comes in at the end pushes out the first when it is full.
  unfoldable pub append : List (CheckRecord T) → CheckRecord T → List (CheckRecord T)
  append records r =
      if ltb (length records) capacity then records ++ r ∷ [] else drop_first records ++ r ∷ []

  -- `begin` for the label of the command.
  unfoldable pub begin_labelled :
      (ℕ → Text → Text)
      → CheckLedger T
      → Text
      → Text
      → Option Text
      → T
      → Option Text
      → Bool
      → Option Text
      → CheckLedger T × Option ℕ
  unfolding append persist
  begin_labelled redact ledger command source cwd now fingerprint available none = (ledger, none)
  begin_labelled redact ledger command source cwd now fingerprint available (some label) = (
    persist available (record ledger {
      records = append ledger.records (record {
        identity = ledger.identities;
        command = redact 4000 command;
        label = label;
        source = redact 256 source;
        started_at = now;
        start_revision = fingerprint;
        cwd = cwd;
        returncode = none;
        finished_at = none;
        end_revision = none;
      });
      identities = suc ledger.identities;
    }),
    some ledger.identities,
  )

  -- The identity of the record that the caller gets, or `none` where the command is no check.
  unfoldable pub begin :
      (Text → Option (List Text))
      → (ℕ → Text → Text)
      → CheckLedger T
      → Text
      → Text
      → Option Text
      → T
      → Option Text
      → Bool
      → CheckLedger T × Option ℕ
  unfolding begin_labelled
  begin tokenize redact ledger command source cwd now fingerprint available =
      begin_labelled redact ledger command source cwd now fingerprint available
        (check_label tokenize command)

  unfoldable pub finish_record : ℕ → Option ℤ → T → Option Text → CheckRecord T → CheckRecord T
  finish_record identity code now fingerprint r =
      if identity == r.identity
      then (elim r.finished_at [
        | some t ↦ r
        | none ↦ record r { end_revision = fingerprint; returncode = code; finished_at = some now }
      ])
      else r

  abbrev pub is_open : ℕ → CheckRecord T → Bool
  is_open identity r =
      identity == r.identity && (elim r.finished_at [ none ↦ true | some t ↦ false ])

  -- A record that the deque has pushed out is no longer the ledger's, and its end is not kept.
  unfoldable pub finish :
      CheckLedger T → Option ℕ → Option ℤ → T → Option Text → Bool → CheckLedger T
  unfolding finish_record persist
  finish ledger none code now fingerprint available = ledger
  finish ledger (some identity) code now fingerprint available =
      if any (is_open identity) ledger.records
      then persist available (record ledger {
        records = map (finish_record identity code now fingerprint) ledger.records;
      })
      else ledger

  abbrev pub is_known : Option Text → Bool
  is_known none = false
  is_known (some t) = true

  unfoldable pub state_of : Option Text → CheckRecord T → CheckState
  state_of current r = elim r.finished_at [
    | none ↦ running
    | some t ↦ elim r.returncode [
      | none ↦ incomplete
      | some code ↦
          if not (is_known r.start_revision && is_known r.end_revision && is_known current)
          then unknown
          else if not (
              option_text_eq r.start_revision r.end_revision
              && option_text_eq r.end_revision current)
          then stale
          else if is_zero code
          then passed
          else failed
    ]
  ]

  pub record Row : Type 0 where
    pub check : CheckRecord T
    pub state : CheckState

  abbrev pub row_of : Option Text → CheckRecord T → Row
  row_of current r = record { check = r; state = state_of current r }

  abbrev pub since_of : (T → T → Bool) → T → List (CheckRecord T) → List (CheckRecord T)
  since_of at_least since [] = []
  since_of at_least since (r ∷ l) = elim (at_least r.started_at since) [
    | true ↦ r ∷ since_of at_least since l
    | false ↦ since_of at_least since l
  ]

  unfoldable pub snapshot : (T → T → Bool) → CheckLedger T → T → Option Text → List Row
  unfolding state_of
  snapshot at_least ledger since current =
      map (row_of current) (since_of at_least since ledger.records)
