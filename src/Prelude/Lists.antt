-- ===== src/Prelude/Lists.antt =====
-- Lists measured and indexed by native numbers, and the Boolean folds of the program's `any` and `all`.
use Prim.Native.Nat.{ℕ, zero, suc, ◌+◌, ◌-◌, ◌≤◌}
use mathlib.Core.Path.{◌≡◌, refl, ap}
use mathlib.Core.Bool.{Bool, true, false, ◌&&◌, ◌||◌}
use mathlib.Core.List.{List, [], ◌∷◌, ◌++◌}
use mathlib.Core.Option.{Option, none, some}
use native.Mathlib.Omega.{arith}

module _ {ℓ} {A : Type ℓ} where
  abbrev pub length : List A → ℕ
  length [] = 0
  length (x ∷ xs) = suc (length xs)

  pub length-append : (xs ys : List A) → length (xs ++ ys) ≡ length xs + length ys
  length-append [] ys = omega arith
  length-append (x ∷ xs) ys = omega (arith, length-append xs ys)

  abbrev pub any : (A → Bool) → List A → Bool
  any p [] = false
  any p (x ∷ xs) = p x || any p xs

  pub any-append : (p : A → Bool) (k l : List A) → any p (k ++ l) ≡ (any p k || any p l)
  any-append p [] l = ground arith
  any-append p (x ∷ k) l = ground (arith, any-append p k l)

  abbrev pub all : (A → Bool) → List A → Bool
  all p [] = true
  all p (x ∷ xs) = p x && all p xs

  abbrev pub null : List A → Bool
  null [] = true
  null (x ∷ xs) = false

  abbrev pub last? : List A → Option A
  last? [] = none
  last? (x ∷ []) = some x
  last? (x ∷ y ∷ xs) = last? (y ∷ xs)

  abbrev pub keep : (A → Bool) → List A → List A
  keep p [] = []
  keep p (x ∷ xs) = elim (p x) [ true ↦ x ∷ keep p xs | false ↦ keep p xs ]

  abbrev pub collect {κ} : {B : Type κ} → (A → List B) → List A → List B
  collect f [] = []
  collect f (x ∷ xs) = f x ++ collect f xs

module _ {ℓ} {A : Type ℓ} where
  abbrev pub get_elem? : List A → ℕ → Option A
  get_elem? [] i = none
  get_elem? (x ∷ xs) zero = some x
  get_elem? (x ∷ xs) (suc i) = get_elem? xs i

  abbrev pub take : ℕ → List A → List A
  take zero xs = []
  take (suc n) [] = []
  take (suc n) (x ∷ xs) = x ∷ take n xs

  -- `xs.pop(i)`, for what is left; out of range nothing is removed
  abbrev pub remove_at : ℕ → List A → List A
  remove_at i [] = []
  remove_at zero (x ∷ xs) = xs
  remove_at (suc i) (x ∷ xs) = x ∷ remove_at i xs

  -- `xs.insert(i, v)`; past the end it appends
  abbrev pub insert_at : ℕ → A → List A → List A
  insert_at zero v xs = v ∷ xs
  insert_at (suc i) v [] = v ∷ []
  insert_at (suc i) v (x ∷ xs) = x ∷ insert_at i v xs

  -- The items of an optional value.
  abbrev pub option_list : Option A → List A
  option_list none = []
  option_list (some x) = x ∷ []

-- A predicate on every item, by recursion: it computes to tuples.
abbrev pub All {ℓ κ} : {A : Type ℓ} → (A → Type κ) → List A → Type κ
All P [] = Unit
All P (x ∷ xs) = P x × All P xs

pub All-append {ℓ κ} :
    {A : Type ℓ} (P : A → Type κ) (xs ys : List A) → All P xs → All P ys → All P (xs ++ ys)
All-append P [] ys hx hy = hy
All-append P (x ∷ xs) ys hx hy = (hx.0, All-append P xs ys hx.1 hy)

module _ {ℓ} {A : Type ℓ} where
  pub all-cong : (p q : A → Bool) (l : List A) → All (λ x. p x ≡ q x) l → all p l ≡ all q l
  all-cong p q [] h = ground arith
  all-cong p q (x ∷ l) h = ground (arith, all-cong p q l h.1)

  pub All-map {κ μ} :
      {P : A → Type κ} {Q : A → Type μ} (l : List A) → ((x : A) → P x → Q x) → All P l → All Q l
  All-map [] f h = tt
  All-map (x ∷ l) f h = (f x h.0, All-map l f h.1)

module _ {ℓ} {A : Type ℓ} where
  -- `xs[n:]`
  unfoldable pub drop : ℕ → List A → List A
  drop zero l = l
  drop (suc n) [] = []
  drop (suc n) (x ∷ l) = drop n l

  pub length-drop : (n : ℕ) (l : List A) → length (drop n l) ≡ length l - n
  unfolding drop
  length-drop zero l = omega arith
  length-drop (suc n) [] = omega arith
  length-drop (suc n) (x ∷ l) = omega (arith, length-drop n l)

  pub drop-append :
      (n : ℕ) (l : List A) (x : A) → n ≤ length l → drop n (l ++ x ∷ []) ≡ drop n l ++ x ∷ []
  unfolding drop
  drop-append zero l x h = refl
  drop-append (suc n) [] x h = ground (arith, h)
  drop-append (suc n) (y ∷ l) x h = drop-append n l x (omega (arith, h))

  pub drop-drop : (m n k : ℕ) (l : List A) → k ≡ n + m → drop m (drop n l) ≡ drop k l
  unfolding drop
  drop-drop m zero k l h = ap (λ i. drop i l) (omega (arith, h))
  drop-drop zero (suc n) zero [] h = refl
  drop-drop zero (suc n) (suc k) [] h = refl
  drop-drop (suc m) (suc n) zero [] h = refl
  drop-drop (suc m) (suc n) (suc k) [] h = refl
  drop-drop m (suc n) zero (x ∷ l) h = ground (arith, h)
  drop-drop m (suc n) (suc k) (x ∷ l) h = drop-drop m n k l (omega (arith, h))

-- The chaining of a do block of optional values.
infixl 5 ◌>>=◌
abbrev pub ◌>>=◌ {ℓ κ} : {A : Type ℓ} {B : Type κ} → Option A → (A → Option B) → Option B
none >>= f = none
some x >>= f = f x

module _ {ℓ} {A : Type ℓ} where
  pub length-take : (n : ℕ) (l : List A) → length (take n l) ≤ n
  length-take zero l = omega arith
  length-take (suc n) [] = omega arith
  length-take (suc n) (x ∷ l) = omega (arith, length-take n l)

  pub length-take_all : (n : ℕ) (l : List A) → n ≤ length l → length (take n l) ≡ n
  length-take_all zero l h = refl
  length-take_all (suc n) [] h = omega (arith, h)
  length-take_all (suc n) (x ∷ l) h = omega (arith, length-take_all n l (omega (arith, h)))

  pub length-take_bound : (n : ℕ) (l : List A) → length (take n l) ≤ length l
  length-take_bound zero l = omega arith
  length-take_bound (suc n) [] = omega arith
  length-take_bound (suc n) (x ∷ l) = omega (arith, length-take_bound n l)

  pub take-drop : (n : ℕ) (l : List A) → take n l ++ drop n l ≡ l
  unfolding drop
  take-drop zero l = refl
  take-drop (suc n) [] = refl
  take-drop (suc n) (x ∷ l) = ap (λ k. x ∷ k) (take-drop n l)

  -- A list that is put together from a front and a rest.
  pub take-front : (k l : List A) → take (length k) (k ++ l) ≡ k
  take-front [] l = refl
  take-front (x ∷ k) l = ap (λ m. x ∷ m) (take-front k l)

  pub drop-front : (k l : List A) → drop (length k) (k ++ l) ≡ l
  unfolding drop
  drop-front [] l = refl
  drop-front (x ∷ k) l = drop-front k l
