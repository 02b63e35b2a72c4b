-- ===== src/Patch/Discarded.antt =====
-- `_apply_patch_locked` (tools/workspace_tools.py): the mutations of the journal that a rollback discards.
use noah_code.Prelude.{
  ℕ, true, false, not, Option, none, some, List, [], ◌∷◌, ◌++◌, map, ◌==◌, ==_iff, ◌≡◌, refl, ap,
  ◌∙◌, arith, any, keep, Bool-cases, inl, inr,
}
use noah_code.Python.Text.{Text}
use noah_code.Files.{Bytes, FileSystem}
use noah_code.Journal.{FileMutation, TurnJournal, SnapshotJournal, preimage, with_postimage}
use noah_code.Journal.Turns.{
  discard_mutation, in_turn, with_mutations, record_preimage, record_postimage, set_postimage,
  turn_of,
}
use noah_code.Journal.Calls.{ids_of, map-set_postimage}
use noah_code.Patch.Commit.{discard_all}

-- What is left of a list of mutations.
abbrev pub discarded : List ℕ → List FileMutation → List FileMutation
discarded [] l = l
discarded (x ∷ ids) l = discarded ids (keep (λ m. not (x == m.id)) l)

abbrev pub mutations_in : SnapshotJournal → List FileMutation
mutations_in j = elim j.current [ none ↦ [] | some t ↦ t.mutations ]

-- The journal, where its turn has the mutations.
abbrev pub having : List FileMutation → SnapshotJournal → SnapshotJournal
having ms j = in_turn (with_mutations (λ l. ms)) j

keep-own :
    (l : List FileMutation) (m : FileMutation) (x : ℕ)
    → (x == m.id) ≡ true
    → keep (λ k. not (x == k.id)) (l ++ m ∷ []) ≡ keep (λ k. not (x == k.id)) l
keep-own [] m x h = rw (h, keep) refl
keep-own (y ∷ l) m x h = elim (Bool-cases (x == y.id)) [
  | inl same ↦ rw (same, keep) (keep-own l m x h)
  | inr other ↦ rw (other, keep) (ap (λ k. y ∷ k) (keep-own l m x h))
]

keep-other :
    (l : List FileMutation) (m : FileMutation) (x : ℕ)
    → (x == m.id) ≡ false
    → keep (λ k. not (x == k.id)) (l ++ m ∷ []) ≡ keep (λ k. not (x == k.id)) l ++ m ∷ []
keep-other [] m x h = rw (h, keep) refl
keep-other (y ∷ l) m x h = elim (Bool-cases (x == y.id)) [
  | inl same ↦ rw (same, keep) (keep-other l m x h)
  | inr other ↦ rw (other, keep) (ap (λ k. y ∷ k) (keep-other l m x h))
]

keep-fresh :
    (l : List FileMutation) (x : ℕ)
    → any (λ i. x == i) (ids_of l) ≡ false
    → keep (λ k. not (x == k.id)) l ≡ l
keep-fresh [] x h = refl
keep-fresh (y ∷ l) x h = elim (Bool-cases (x == y.id)) [
  | inl same ↦ ground (arith, h, same)
  | inr other ↦ rw (other, keep) (ap (λ k. y ∷ k) (keep-fresh l x (ground (arith, h, other))))
]

discarded-new :
    (ids : List ℕ) (l : List FileMutation) (m : FileMutation)
    → discarded (ids ++ m.id ∷ []) (l ++ m ∷ []) ≡ discarded (ids ++ m.id ∷ []) l
discarded-new [] l m = keep-own l m m.id ((==_iff m.id m.id).1 refl)
discarded-new (x ∷ ids) l m = elim (Bool-cases (x == m.id)) [
  | inl same ↦ ap (discarded (ids ++ m.id ∷ [])) (keep-own l m x same)
  | inr other ↦
      ap (discarded (ids ++ m.id ∷ [])) (keep-other l m x other)
      ∙ discarded-new ids (keep (λ k. not (x == k.id)) l) m
]

discarded-last :
    (ids : List ℕ) (x : ℕ) (l : List FileMutation)
    → discarded (ids ++ x ∷ []) l ≡ keep (λ k. not (x == k.id)) (discarded ids l)
discarded-last [] x l = refl
discarded-last (y ∷ ids) x l = discarded-last ids x (keep (λ k. not (y == k.id)) l)

keep-map :
    (g : FileMutation → FileMutation) (x : ℕ) (l : List FileMutation)
    → ((m : FileMutation) → (g m).id ≡ m.id)
    → keep (λ k. not (x == k.id)) (map g l) ≡ map g (keep (λ k. not (x == k.id)) l)
keep-map g x [] h = refl
keep-map g x (m ∷ l) h = elim (Bool-cases (x == m.id)) [
  | inl same ↦ rw (h m, same, keep) (keep-map g x l h)
  | inr other ↦ rw (h m, other, keep) (ap (λ k. g m ∷ k) (keep-map g x l h))
]

discarded-map :
    (g : FileMutation → FileMutation) (ids : List ℕ) (l : List FileMutation)
    → ((m : FileMutation) → (g m).id ≡ m.id)
    → discarded ids (map g l) ≡ map g (discarded ids l)
discarded-map g [] l h = refl
discarded-map g (x ∷ ids) l h =
    ap (discarded ids) (keep-map g x l h) ∙ discarded-map g ids (keep (λ k. not (x == k.id)) l) h

-- On a journal with the turn, or without one.
abbrev at : SnapshotJournal → Option TurnJournal → SnapshotJournal
at j c = record j { current = c }

discard_having :
    (x : ℕ) (ms : List FileMutation) (c : Option TurnJournal) (j : SnapshotJournal)
    → discard_mutation (having ms (at j c)) x ≡ having (keep (λ m. not (x == m.id)) ms) (at j c)
unfolding discard_mutation
discard_having x ms none j = refl
discard_having x ms (some t) j = refl

pub having_own :
    (c : Option TurnJournal) (j : SnapshotJournal)
    → having (mutations_in (at j c)) (at j c) ≡ at j c
having_own none j = refl
having_own (some t) j = refl

discard_all-having :
    (ids : List ℕ) (ms : List FileMutation) (j : SnapshotJournal)
    → discard_all ids (having ms j) ≡ having (discarded ids ms) j
unfolding discard_all discard_mutation
discard_all-having [] ms j = refl
discard_all-having (x ∷ ids) ms j =
    ap (discard_all ids) (discard_having x ms j.current j)
    ∙ discard_all-having ids (keep (λ m. not (x == m.id)) ms) j

-- What a rollback leaves.
pub discard_all-restores :
    (ids : List ℕ) (ms : List FileMutation) (j : SnapshotJournal)
    → discarded ids ms ≡ mutations_in j
    → discard_all ids (having ms j) ≡ j
discard_all-restores ids ms j h =
    discard_all-having ids ms j ∙ ap (λ l. having l j) h ∙ having_own j.current j

module _ (sha256 : Bytes → Text) where
  abbrev pub recorded : SnapshotJournal → List FileMutation → FileSystem → Text → ℕ → FileMutation
  recorded j ms fs p id = preimage sha256 j.blob_limit id (turn_of (having ms j).current) p (fs p)

  record_preimage_at :
      (c : Option TurnJournal) (ms : List FileMutation) (j : SnapshotJournal) (fs : FileSystem)
      (p : Text) (id : ℕ)
      → record_preimage sha256 (having ms (at j c)) fs p id
        ≡ having (ms ++ recorded (at j c) ms fs p id ∷ []) (at j c)
  unfolding record_preimage
  record_preimage_at none ms j fs p id = refl
  record_preimage_at (some t) ms j fs p id = refl

  pub record_preimage-having :
      (ms : List FileMutation) (j : SnapshotJournal) (fs : FileSystem) (p : Text) (id : ℕ)
      → record_preimage sha256 (having ms j) fs p id ≡ having (ms ++ recorded j ms fs p id ∷ []) j
  record_preimage-having ms j fs p id = record_preimage_at j.current ms j fs p id

  pub discarded-recorded :
      (ids : List ℕ) (ms : List FileMutation) (j : SnapshotJournal) (fs : FileSystem) (p : Text)
      (id : ℕ)
      → discarded ids ms ≡ mutations_in j
      → any (λ i. id == i) (ids_of (mutations_in j)) ≡ false
      → discarded (ids ++ id ∷ []) (ms ++ recorded j ms fs p id ∷ []) ≡ mutations_in j
  unfolding preimage
  discarded-recorded ids ms j fs p id h fresh =
      discarded-new ids ms (recorded j ms fs p id)
      ∙ discarded-last ids id ms
      ∙ ap (keep (λ k. not (id == k.id))) h
      ∙ keep-fresh (mutations_in j) id fresh

  record_postimage_at :
      (c : Option TurnJournal) (ms : List FileMutation) (j : SnapshotJournal) (fs : FileSystem)
      (id : ℕ)
      → record_postimage sha256 (having ms (at j c)) fs id
        ≡ having (map (set_postimage sha256 (at j c) fs id) ms) (at j c)
  unfolding record_postimage
  record_postimage_at none ms j fs id = refl
  record_postimage_at (some t) ms j fs id = refl

  pub record_postimage-having :
      (ms : List FileMutation) (j : SnapshotJournal) (fs : FileSystem) (id : ℕ)
      → record_postimage sha256 (having ms j) fs id
        ≡ having (map (set_postimage sha256 j fs id) ms) j
  record_postimage-having ms j fs id = record_postimage_at j.current ms j fs id

  set_postimage-id :
      (j : SnapshotJournal) (fs : FileSystem) (id : ℕ) (m : FileMutation)
      → (set_postimage sha256 j fs id m).id ≡ m.id
  unfolding with_postimage
  set_postimage-id j fs id m = ground arith

  pub discarded-postimage :
      (ids : List ℕ) (ms : List FileMutation) (j : SnapshotJournal) (fs : FileSystem) (id : ℕ)
      → discarded ids ms ≡ mutations_in j
      → any (λ i. id == i) (ids_of (mutations_in j)) ≡ false
      → discarded ids (map (set_postimage sha256 j fs id) ms) ≡ mutations_in j
  discarded-postimage ids ms j fs id h fresh =
      discarded-map (set_postimage sha256 j fs id) ids ms (set_postimage-id j fs id)
      ∙ ap (map (set_postimage sha256 j fs id)) h
      ∙ map-set_postimage sha256 j fs id (mutations_in j) fresh
