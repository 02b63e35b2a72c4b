-- ===== src/Checks/Runs.antt =====
-- Runs of the calls of `CheckLedger` (verification.py), and what they keep.
use noah_code.Checks.Label.{check_label}
use noah_code.Prelude.{
  true, false, none, [], List, Bool, ℕ, Option, length, ◌≡◌, ℤ, map, ◌∷◌, ◌-◌, ◌≤◌, arith, some,
  refl, length-append, any, inl, inr, ◌⊎◌,
}
use noah_code.Checks.Ledger.{
  CheckRecord, CheckLedger, begin, finish, finish_record, append, capacity, drop_first, persist,
  begin_labelled, is_open,
}
use noah_code.Python.Text.{Text}

-- A call with its arguments and what it reads from its surroundings.
pub data Call (T : Type 0) : Type 0 where
  begin_call : Text → Text → Option Text → T → Option Text → Bool → Call T
  finish_call : Option ℕ → Option ℤ → T → Option Text → Bool → Call T

module _ (T : Type 0) where
  map-length :
      (f : CheckRecord T → CheckRecord T) (l : List (CheckRecord T)) → length (map f l) ≡ length l
  map-length f [] = refl
  map-length f (r ∷ l) = omega (arith, map-length f l)

  length-drop_first : (l : List (CheckRecord T)) → length (drop_first l) ≡ length l - 1
  length-drop_first [] = refl
  length-drop_first (r ∷ l) = omega arith

  length-ledger_append :
      (l : List (CheckRecord T)) (r : CheckRecord T)
      → length l ≤ capacity
      → length (append T l r) ≤ capacity
  unfolding append
  length-ledger_append l r h =
      ground (
        arith,
        length-append l (r ∷ []),
        length-append (drop_first l) (r ∷ []),
        length-drop_first l,
      )

  persist-records :
      (available : Bool) (ledger : CheckLedger T)
      → (persist T available ledger).records ≡ ledger.records
  unfolding persist
  persist-records true ledger = refl
  persist-records false ledger = refl

  module _ (tokenize : Text → Option (List Text)) (redact : ℕ → Text → Text) where
    unfoldable pub perform : CheckLedger T → Call T → CheckLedger T
    unfolding begin finish
    perform ledger (begin_call command source cwd now fingerprint available) =
        (begin T tokenize redact ledger command source cwd now fingerprint available).0
    perform ledger (finish_call identity code now fingerprint available) =
        finish T ledger identity code now fingerprint available

    unfoldable pub perform_all : CheckLedger T → List (Call T) → CheckLedger T
    unfolding perform
    perform_all ledger [] = ledger
    perform_all ledger (c ∷ l) = perform_all (perform ledger c) l

    begin_labelled-bounded :
        (ledger : CheckLedger T) (command source : Text) (cwd : Option Text) (now : T)
        (fingerprint : Option Text) (available : Bool) (label : Option Text)
        → length ledger.records ≤ capacity
        → length
            (begin_labelled T redact ledger command source cwd now fingerprint available
              label).0.records
          ≤ capacity
    unfolding begin_labelled persist
    begin_labelled-bounded ledger command source cwd now fingerprint available none h = h
    begin_labelled-bounded ledger command source cwd now fingerprint true (some label) h =
        length-ledger_append ledger.records _ h
    begin_labelled-bounded ledger command source cwd now fingerprint false (some label) h =
        length-ledger_append ledger.records _ h

    perform-bounded :
        (ledger : CheckLedger T) (c : Call T)
        → length ledger.records ≤ capacity
        → length (perform ledger c).records ≤ capacity
    unfolding perform persist begin
    perform-bounded ledger (begin_call command source cwd now fingerprint available) h =
        begin_labelled-bounded ledger command source cwd now fingerprint available
          (check_label tokenize command) h
    perform-bounded ledger (finish_call none code now fingerprint available) h = h
    perform-bounded ledger (finish_call (some i) code now fingerprint available) h =
        ground (arith, map-length (finish_record T i code now fingerprint) ledger.records)

    -- A ledger that holds at most 512 records holds at most 512 records after any calls.
    pub perform_all-bounded :
        (calls : List (Call T)) (ledger : CheckLedger T)
        → length ledger.records ≤ capacity
        → length (perform_all ledger calls).records ≤ capacity
    unfolding perform_all
    perform_all-bounded [] ledger h = h
    perform_all-bounded (c ∷ l) ledger h =
        perform_all-bounded l (perform ledger c) (perform-bounded ledger c h)

  module _ (identity : ℕ) (code code' : Option ℤ) (now now' : T)
      (fingerprint fingerprint' : Option Text) where
    finish_record-once :
        (r : CheckRecord T)
        → finish_record T identity code' now' fingerprint'
            (finish_record T identity code now fingerprint r)
          ≡ finish_record T identity code now fingerprint r
    unfolding finish_record
    finish_record-once r = ground arith

    map-once :
        (l : List (CheckRecord T))
        → map
            (finish_record T identity code' now' fingerprint')
            (map (finish_record T identity code now fingerprint) l)
          ≡ map (finish_record T identity code now fingerprint) l
    map-once [] = refl
    map-once (r ∷ l) = rw (finish_record-once r, map-once l) refl

    finish-records :
        (ledger : CheckLedger T) (available : Bool)
        → (any (is_open T identity) ledger.records ≡ false)
            × (finish T ledger (some identity) code now fingerprint available ≡ ledger)
          ⊎ ((finish T ledger (some identity) code now fingerprint available).records
              ≡ map (finish_record T identity code now fingerprint) ledger.records)
    unfolding finish persist
    finish-records ledger true = ground arith
    finish-records ledger false = ground arith

    finish_again :
        (first : CheckLedger T) (available' : Bool)
        → (any (is_open T identity) first.records ≡ false)
          ⊎ (map (finish_record T identity code' now' fingerprint') first.records ≡ first.records)
        → (finish T first (some identity) code' now' fingerprint' available').records
          ≡ first.records
    unfolding finish persist
    finish_again first true h = ground arith
    finish_again first false h = ground arith

    -- A check is finished once: a second call of `finish` for the same record changes no record.
    pub finish-once :
        (ledger : CheckLedger T) (available available' : Bool)
        → (finish T
            (finish T ledger (some identity) code now fingerprint available)
            (some identity)
            code'
            now'
            fingerprint'
            available').records
          ≡ (finish T ledger (some identity) code now fingerprint available).records
    finish-once ledger available available' =
        finish_again (finish T ledger (some identity) code now fingerprint available) available'
          (elim (finish-records ledger available) [
            | inl (closed, same) ↦ inl (rw same closed)
            | inr mapped ↦ inr (rw mapped (map-once ledger.records))
          ])
