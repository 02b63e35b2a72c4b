-- ===== src/Store/Chronology.antt =====
-- The order in which `recover_file_operations` (runtime_state.py) undoes the operations on a path.
use noah_code.Prelude.{
  Bool, true, false, ◌||◌, Option, none, some, List, [], ◌∷◌, ◌≡◌, refl, ap, ◌∙◌, arith, Bool-cases,
  inl, inr, All, All-map, if◌then◌else◌, keep, not, ltb, ◌≤◌,
}
use noah_code.Python.Text.{Text, text_eq}
use noah_code.Python.Text.Laws.{text_eq_iff}
use noah_code.Files.{File}
use noah_code.Store.Table.{find_row}
use noah_code.Store.FileOperations.{
  FileOperation, path_of, preimage, Recovery, insert_newest, by_newest, recover_row, recover_rows,
}

-- Of two operations on the same path, the later row began later.
unfoldable pub IsChronological : List FileOperation → Type 0
unfolding text_eq
IsChronological [] = Unit {0}
IsChronological (x ∷ l) =
    All (λ y. (not (text_eq x.path y.path) || ltb x.created_at y.created_at) ≡ true) l
    × IsChronological l

All-keep :
    (P : FileOperation → Type 0) (p : FileOperation → Bool) (l : List FileOperation)
    → All P l
    → All P (keep p l)
All-keep P p [] h = tt
All-keep P p (x ∷ l) h = elim (Bool-cases (p x)) [
  | inl kept ↦ rw (kept, All) (h.0, All-keep P p l h.1)
  | inr gone ↦ rw (gone, All) (All-keep P p l h.1)
]

pub keep-IsChronological :
    (p : FileOperation → Bool) (l : List FileOperation)
    → IsChronological l
    → IsChronological (keep p l)
unfolding IsChronological
keep-IsChronological p [] h = tt
keep-IsChronological p (x ∷ l) h = elim (Bool-cases (p x)) [
  | inl kept ↦ rw (kept, IsChronological) (All-keep _ p l h.0, keep-IsChronological p l h.1)
  | inr gone ↦ rw (gone, IsChronological) (keep-IsChronological p l h.1)
]

-- None of the operations began after those before it.
abbrev IsDescending : List FileOperation → Type 0
IsDescending [] = Unit {0}
IsDescending (x ∷ l) = All (λ y. y.created_at ≤ x.created_at) l × IsDescending l

All-insert_newest :
    (P : FileOperation → Type 0) (x : FileOperation) (l : List FileOperation)
    → P x
    → All P l
    → All P (insert_newest x l)
All-insert_newest P x [] own h = (own, tt)
All-insert_newest P x (y ∷ l) own h = elim (Bool-cases (ltb x.created_at y.created_at)) [
  | inl older ↦ rw older (h.0, All-insert_newest P x l own h.1)
  | inr newer ↦ rw newer (own, h)
]

insert_newest-IsDescending :
    (x : FileOperation) (l : List FileOperation) → IsDescending l → IsDescending (insert_newest x l)
insert_newest-IsDescending x [] h = (tt, tt)
insert_newest-IsDescending x (y ∷ l) h = elim (Bool-cases (ltb x.created_at y.created_at)) [
  | inl older ↦ rw older (
    All-insert_newest (λ z. z.created_at ≤ y.created_at) x l (ground (arith, older)) h.0,
    insert_newest-IsDescending x l h.1,
  )
  | inr newer ↦
      rw newer ((ground (arith, newer), All-map l (λ z k. ground (arith, newer, k)) h.0), h)
]

by_newest-IsDescending : (l : List FileOperation) → IsDescending (by_newest l)
by_newest-IsDescending [] = tt
by_newest-IsDescending (x ∷ l) =
    insert_newest-IsDescending x (by_newest l) (by_newest-IsDescending l)

All-by_newest :
    (P : FileOperation → Type 0) (l : List FileOperation) → All P l → All P (by_newest l)
All-by_newest P [] h = tt
All-by_newest P (x ∷ l) h = All-insert_newest P x (by_newest l) h.0 (All-by_newest P l h.1)

-- What a path holds when the first of the operations on it is undone last.
abbrev pub oldest_preimage : Option File → Option FileOperation → Option File
oldest_preimage now none = now
oldest_preimage now (some r) = preimage r

module _ (p : Text) where
  recover_rows-same :
      (s t : Recovery) (l : List FileOperation)
      → s.files p ≡ t.files p
      → (recover_rows s l).files p ≡ (recover_rows t l).files p
  unfolding recover_rows
  recover_rows-same s t [] h = h
  recover_rows-same s t (x ∷ l) h =
      recover_rows-same (recover_row s x) (recover_row t x) l
        (ap (λ o. if text_eq p x.path then preimage x else o) h)

  recover_rows-other :
      (s : Recovery) (l : List FileOperation)
      → All (λ y. text_eq y.path p ≡ false) l
      → (recover_rows s l).files p ≡ s.files p
  unfolding recover_rows
  recover_rows-other s [] h = refl
  recover_rows-other s (x ∷ l) h =
      recover_rows-other (recover_row s x) l h.1
      ∙ ground (arith, h.0, text_eq_iff p x.path, text_eq_iff x.path p)

  recover_rows-skip :
      (s : Recovery) (x : FileOperation) (l : List FileOperation)
      → text_eq x.path p ≡ false
      → (recover_rows s (insert_newest x l)).files p ≡ (recover_rows s l).files p
  unfolding recover_rows
  recover_rows-skip s x [] off = recover_rows-other s (x ∷ []) (off, tt)
  recover_rows-skip s x (y ∷ l) off = elim (Bool-cases (ltb x.created_at y.created_at)) [
    | inl older ↦ rw older (recover_rows-skip (recover_row s y) x l off)
    | inr newer ↦ rw newer (
        recover_rows-same (recover_row s x) s (y ∷ l)
          (ground (arith, off, text_eq_iff p x.path, text_eq_iff x.path p)))
  ]

  none_behind :
      (x y : FileOperation) (l : List FileOperation)
      → ltb x.created_at y.created_at ≡ false
      → All (λ z. z.created_at ≤ y.created_at) l
      → All (λ z. (not (text_eq z.path p) || ltb x.created_at z.created_at) ≡ true) l
      → All (λ z. text_eq z.path p ≡ false) l
  none_behind x y [] newer sorted h = tt
  none_behind x y (z ∷ l) newer sorted h =
      (ground (arith, newer, sorted.0, h.0), none_behind x y l newer sorted.1 h.1)

  -- The oldest operation on a path is the last one that is undone there.
  recover_rows-oldest :
      (s : Recovery) (x : FileOperation) (l : List FileOperation)
      → text_eq x.path p ≡ true
      → IsDescending l
      → All (λ y. (not (text_eq y.path p) || ltb x.created_at y.created_at) ≡ true) l
      → (recover_rows s (insert_newest x l)).files p ≡ preimage x
  unfolding recover_rows
  recover_rows-oldest s x [] on sorted h =
      ground (arith, on, text_eq_iff p x.path, text_eq_iff x.path p)
  recover_rows-oldest s x (y ∷ l) on sorted h = elim (Bool-cases (ltb x.created_at y.created_at)) [
    | inl older ↦ rw older (recover_rows-oldest (recover_row s y) x l on sorted.1 h.1)
    | inr newer ↦ rw newer (
        recover_rows-other (recover_row s x) (y ∷ l)
          (ground (arith, h.0, newer), none_behind x y l newer sorted.0 h.1)
        ∙ ground (arith, on, text_eq_iff p x.path, text_eq_iff x.path p))
  ]

  pub recover_rows-files :
      (s : Recovery) (l : List FileOperation)
      → IsChronological l
      → (recover_rows s (by_newest l)).files p ≡ oldest_preimage (s.files p) (find_row path_of p l)
  unfolding IsChronological
  recover_rows-files s [] h = unfold recover_rows in refl
  recover_rows-files s (x ∷ l) h = elim (Bool-cases (text_eq x.path p)) [
    | inl on ↦ rw on (
        recover_rows-oldest s x (by_newest l) on (by_newest-IsDescending l) (
          All-by_newest _ l (
            All-map l
              (λ y k. ground (
                arith,
                k,
                text_eq_iff x.path p,
                on,
                text_eq_iff y.path p,
                text_eq_iff x.path y.path,
              ))
              h.0)))
    | inr off ↦ rw off (recover_rows-skip s x (by_newest l) off ∙ recover_rows-files s l h.1)
  ]
