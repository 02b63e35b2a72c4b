-- ===== src/Store/Table.antt =====
-- Tables with a text as their primary key, as `RuntimeStore` (runtime_state.py) queries them.
use noah_code.Prelude.{
  Bool, false, ◌&&◌, Option, none, some, List, [], ◌∷◌, ◌++◌, ◌≡◌, refl, ap, arith, if◌then◌else◌,
  Bool-cases, inl, inr,
}
use noah_code.Python.Text.{Text, text_eq}
use noah_code.Python.Text.Laws.{text_eq_iff}

module _ {A : Type 0} (key_of : A → Text) where
  -- SELECT … WHERE key=?
  abbrev pub find_row : Text → List A → Option A
  find_row key [] = none
  find_row key (r ∷ l) = if text_eq (key_of r) key then some r else find_row key l

  -- UPDATE … WHERE key=? AND …
  abbrev pub update_rows : Text → (A → Bool) → (A → A) → List A → List A
  update_rows key p f [] = []
  update_rows key p f (r ∷ l) =
      (if text_eq (key_of r) key && p r then f r else r) ∷ update_rows key p f l

  pub find_row-append :
      (key : Text) (k l : List A) (r : A) → find_row key k ≡ some r → find_row key (k ++ l) ≡ some r
  find_row-append key [] l r h = ground (arith, h)
  find_row-append key (x ∷ k) l r h = elim (Bool-cases (text_eq (key_of x) key)) [
    | inl same ↦ ground (arith, h, same)
    | inr other ↦ rw other (find_row-append key k l r (ground (arith, h, other)))
  ]

  pub find_row-append_new :
      (key : Text) (k : List A) (r : A)
      → find_row key k ≡ none
      → key_of r ≡ key
      → find_row key (k ++ r ∷ []) ≡ some r
  find_row-append_new key [] r h e = ground (arith, e, (text_eq_iff (key_of r) key).1 e)
  find_row-append_new key (x ∷ k) r h e = elim (Bool-cases (text_eq (key_of x) key)) [
    | inl same ↦ ground (arith, h, same)
    | inr other ↦ rw other (find_row-append_new key k r (ground (arith, h, other)) e)
  ]

  pub find_row-append_other :
      (key : Text) (k : List A) (r : A)
      → text_eq (key_of r) key ≡ false
      → find_row key (k ++ r ∷ []) ≡ find_row key k
  find_row-append_other key [] r h = ground (arith, h)
  find_row-append_other key (x ∷ k) r h = ground (arith, find_row-append_other key k r h)

  -- An update of another key.
  pub find_row-update_other :
      (key other : Text) (p : A → Bool) (f : A → A) (l : List A)
      → ((r : A) → key_of (f r) ≡ key_of r)
      → text_eq other key ≡ false
      → find_row key (update_rows other p f l) ≡ find_row key l
  find_row-update_other key other p f [] keeps h = refl
  find_row-update_other key other p f (r ∷ l) keeps h = ground (
    arith,
    h,
    keeps r,
    text_eq_iff (key_of r) other,
    ap (λ k. text_eq k key) (keeps r),
    find_row-update_other key other p f l keeps h,
  )

  abbrev pub update_found : (A → Bool) → (A → A) → Option A → Option A
  update_found p f none = none
  update_found p f (some r) = if p r then some (f r) else some r

  -- An update of the key.
  pub find_row-update :
      (key : Text) (p : A → Bool) (f : A → A) (l : List A)
      → ((r : A) → key_of (f r) ≡ key_of r)
      → find_row key (update_rows key p f l) ≡ update_found p f (find_row key l)
  find_row-update key p f [] keeps = refl
  find_row-update key p f (r ∷ l) keeps =
      ground (arith, ap (λ k. text_eq k key) (keeps r), find_row-update key p f l keeps)
