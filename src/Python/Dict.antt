-- ===== src/Python/Dict.antt =====
-- `dict`, as a list of its keys with their values in the order of insertion.
use noah_code.Prelude.{Bool, Option, none, some, List, [], ◌∷◌, if◌then◌else◌}

module _ {ℓ κ} {K : Type ℓ} {V : Type κ} (same : K → K → Bool) where
  -- `d.get(key)`
  abbrev pub get_item : K → List (K × V) → Option V
  get_item key [] = none
  get_item key ((k, v) ∷ l) = if same k key then some v else get_item key l

  -- `d[key] = value`
  abbrev pub set_item : K → V → List (K × V) → List (K × V)
  set_item key value [] = (key, value) ∷ []
  set_item key value ((k, v) ∷ l) =
      let rest : List (K × V) = set_item key value l in
      if same k key then (k, value) ∷ l else (k, v) ∷ rest

  -- `d.pop(key, None)`, for what is left
  abbrev pub pop_item : K → List (K × V) → List (K × V)
  pop_item key [] = []
  pop_item key ((k, v) ∷ l) =
      let rest : List (K × V) = pop_item key l in if same k key then l else (k, v) ∷ rest

  -- A change of the value that stands at a key.
  abbrev pub update_item : K → (V → V) → List (K × V) → List (K × V)
  update_item key f [] = []
  update_item key f ((k, v) ∷ l) = (if same k key then (k, f v) else (k, v)) ∷ update_item key f l
