-- ===== src/Journal/Calls.antt =====
-- A turn as its callers record it: `begin_turn`, around each edit `record_preimage` and
-- `record_postimage`, and `end_turn`.
use noah_code.Prelude.{
  length-drop, drop-append, length-append, drop, ℕ, ◌+◌, ◌-◌, ◌≤◌, false, ◌==◌, Option, none, some,
  List, [], ◌∷◌, ◌++◌, map, ◌≡◌, refl, ap, sym, ◌∙◌, arith, ==_iff, length, any, last?, Bool-cases,
  inl, inr, subst,
}
use mathlib.Core.List.{append-nil, map-append, append_assoc}
use noah_code.Python.Text.{Text}
use noah_code.Files.{Bytes, FileSystem, put_file_self}
use noah_code.Journal.{
  FileMutation, TurnJournal, SnapshotJournal, preimage, with_postimage, cap_turns,
  journal_max_turns,
}
use noah_code.Journal.Turns.{
  begin_turn, end_turn, record_preimage, record_postimage, set_postimage, front,
}
use noah_code.Journal.Recorded.{Edit, edit, mutation_of, mutations_of}

-- A list is cut to its bound.
pub cap_turns-bound : (l : List TurnJournal) → length (cap_turns l) ≤ journal_max_turns
unfolding cap_turns
cap_turns-bound l = omega (arith, length-drop (length l - journal_max_turns) l)

-- What is behind the newest turn when the list is cut.
abbrev pub older : List TurnJournal → List TurnJournal
older l = drop (length l + 1 - journal_max_turns) l

pub cap_turns-append :
    (l : List TurnJournal) (t : TurnJournal) → cap_turns (l ++ t ∷ []) ≡ older l ++ t ∷ []
unfolding cap_turns
cap_turns-append l t =
    ap (λ n. drop (n - journal_max_turns) (l ++ t ∷ [])) (length-append l (t ∷ []))
    ∙ drop-append (length l + 1 - journal_max_turns) l t (omega arith)

pub last?-append : (l : List TurnJournal) (t : TurnJournal) → last? (l ++ t ∷ []) ≡ some t
last?-append [] t = refl
last?-append (x ∷ []) t = refl
last?-append (x ∷ y ∷ l) t = last?-append (y ∷ l) t

pub front-append : (l : List TurnJournal) (t : TurnJournal) → front (l ++ t ∷ []) ≡ l
front-append [] t = refl
front-append (x ∷ []) t = refl
front-append (x ∷ y ∷ l) t = ap (λ k. x ∷ k) (front-append (y ∷ l) t)

pub length-front : (l : List TurnJournal) → length (front l) ≤ length l
length-front [] = omega arith
length-front (x ∷ []) = omega arith
length-front (x ∷ y ∷ l) = omega (arith, length-front (y ∷ l))

-- No edit has the id of a mutation that is there before it.
abbrev pub FreshIds : List ℕ → List Edit → Type 0
FreshIds ids [] = Unit {0}
FreshIds ids (e ∷ l) = (any (λ id. e.id == id) ids ≡ false) × FreshIds (ids ++ e.id ∷ []) l

abbrev pub ids_of : List FileMutation → List ℕ
ids_of l = map (λ m. m.id) l

abbrev turn_with : ℕ → List FileMutation → Option TurnJournal
turn_with turn_id l = some (record { turn_id = turn_id; mutations = l; shell_may_bypass = false })

module _ (sha256 : Bytes → Text) where
  pub record_edits : SnapshotJournal → FileSystem → List Edit → SnapshotJournal
  record_edits j fs [] = j
  record_edits j fs (e ∷ l) =
      record_edits
        (record_postimage sha256 (record_preimage sha256 j fs e.path e.id) (edit fs e) e.id)
        (edit fs e) l

  -- The journal behind a turn of edits.
  abbrev pub after_turn : SnapshotJournal → ℕ → FileSystem → List Edit → SnapshotJournal
  after_turn j turn_id fs l = end_turn (record_edits (begin_turn j turn_id) fs l)

  pub map-set_postimage :
      (j : SnapshotJournal) (fs : FileSystem) (id : ℕ) (l : List FileMutation)
      → any (λ i. id == i) (ids_of l) ≡ false
      → map (set_postimage sha256 j fs id) l ≡ l
  map-set_postimage j fs id [] h = refl
  map-set_postimage j fs id (m ∷ l) h = elim (Bool-cases (id == m.id)) [
    | inl same ↦ ground (arith, h, same)
    | inr other ↦
        rw other (ap (λ k. m ∷ k) (map-set_postimage j fs id l (ground (arith, h, other))))
  ]

  set_postimage-own :
      (j : SnapshotJournal) (turn_id : ℕ) (fs : FileSystem) (e : Edit)
      → set_postimage sha256 j
          (edit fs e)
          e.id
          (preimage sha256 j.blob_limit e.id turn_id e.path (fs e.path))
        ≡ mutation_of sha256 j.blob_limit turn_id fs e
  unfolding preimage
  set_postimage-own j turn_id fs e = rw ((==_iff e.id e.id).1 refl) (
      ap
        (λ o.
          with_postimage sha256 j.blob_limit o
            (preimage sha256 j.blob_limit e.id turn_id e.path (fs e.path)))
        (put_file_self fs e.path e.file))

  record_edit_lem :
      (j : SnapshotJournal) (turn_id : ℕ) (ms : List FileMutation) (fs : FileSystem) (e : Edit)
      → any (λ i. e.id == i) (ids_of ms) ≡ false
      → record_postimage sha256
          (record_preimage sha256 (record j { current = turn_with turn_id ms }) fs e.path e.id)
          (edit fs e)
          e.id
        ≡ record j {
          current = turn_with turn_id (ms ++ mutation_of sha256 j.blob_limit turn_id fs e ∷ []);
        }
  unfolding record_preimage record_postimage
  record_edit_lem j turn_id ms fs e h =
      let j' : SnapshotJournal =
        record_preimage sha256 (record j { current = turn_with turn_id ms }) fs e.path e.id in
      let pre : FileMutation = preimage sha256 j.blob_limit e.id turn_id e.path (fs e.path) in
      ap (λ l. record j { current = turn_with turn_id l })
        (map-append (set_postimage sha256 j' (edit fs e) e.id) ms (pre ∷ [])
          ∙ ap (λ k. k ++ set_postimage sha256 j' (edit fs e) e.id pre ∷ [])
              (map-set_postimage j' (edit fs e) e.id ms h)
          ∙ ap (λ m. ms ++ m ∷ []) (set_postimage-own j turn_id fs e))

  ids_of-recorded :
      (limit turn_id : ℕ) (ms : List FileMutation) (fs : FileSystem) (e : Edit)
      → ids_of ms ++ e.id ∷ [] ≡ ids_of (ms ++ mutation_of sha256 limit turn_id fs e ∷ [])
  unfolding preimage with_postimage
  ids_of-recorded limit turn_id ms fs e =
      sym (map-append (λ m. m.id) ms (mutation_of sha256 limit turn_id fs e ∷ []))

  record_edits_lem :
      (j : SnapshotJournal) (turn_id : ℕ) (ms : List FileMutation) (fs : FileSystem) (l : List Edit)
      → FreshIds (ids_of ms) l
      → record_edits (record j { current = turn_with turn_id ms }) fs l ≡ record j {
        current = turn_with turn_id (ms ++ mutations_of sha256 j.blob_limit turn_id fs l);
      }
  unfolding record_edits mutations_of
  record_edits_lem j turn_id ms fs [] h =
      ap (λ k. record j { current = turn_with turn_id k }) (sym (append-nil ms))
  record_edits_lem j turn_id ms fs (e ∷ l) h =
      let m : FileMutation = mutation_of sha256 j.blob_limit turn_id fs e in
      ap (λ k. record_edits k (edit fs e) l) (record_edit_lem j turn_id ms fs e h.0)
      ∙ record_edits_lem j turn_id (ms ++ m ∷ []) (edit fs e) l
          (subst (λ ids. FreshIds ids l) (ids_of-recorded j.blob_limit turn_id ms fs e) h.1)
      ∙ ap (λ k. record j { current = turn_with turn_id k })
          (append_assoc ms (m ∷ []) (mutations_of sha256 j.blob_limit turn_id (edit fs e) l))

  abbrev pub recorded_turn : ℕ → ℕ → FileSystem → List Edit → TurnJournal
  recorded_turn limit turn_id fs l = record {
    turn_id = turn_id;
    mutations = mutations_of sha256 limit turn_id fs l;
    shell_may_bypass = false;
  }

  -- What a turn leaves in the journal.
  pub after_turn_lem :
      (j : SnapshotJournal) (turn_id : ℕ) (fs : FileSystem) (e : Edit) (l : List Edit)
      → FreshIds [] (e ∷ l)
      → after_turn j turn_id fs (e ∷ l) ≡ record j {
        turns = older j.turns ++ recorded_turn j.blob_limit turn_id fs (e ∷ l) ∷ [];
        redos = [];
        current = none;
      }
  unfolding begin_turn end_turn mutations_of
  after_turn_lem j turn_id fs e l h =
      ap end_turn (record_edits_lem j turn_id [] fs (e ∷ l) h)
      ∙ ap (λ k. record j { turns = k; redos = []; current = none })
          (cap_turns-append j.turns (recorded_turn j.blob_limit turn_id fs (e ∷ l)))
