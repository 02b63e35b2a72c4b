-- ===== src/Store/Once.antt =====
-- The effects of `RuntimeStore` (runtime_state.py) that were completed.
use noah_code.Prelude.{
  ℕ, true, false, Option, none, some, List, [], ◌∷◌, ◌++◌, ◌≡◌, refl, ap, sym, ◌∙◌, arith,
  Bool-cases, inl, inr, All, subst,
}
use noah_code.Python.Text.{Text, text_eq}
use noah_code.Python.Text.Laws.{text_eq_iff}
use noah_code.Store.Effects.{
  Effect, EffectState, committed, Effects, key_of, restarted, completed, gone_wrong, begin_found,
  effect_key_of, begin_effect, complete_effect, fail_effect, update_effect, new_effect,
  is_committed,
}
use noah_code.Store.Table.{
  find_row, find_row-append_other, find_row-update, find_row-update_other, update_found,
  find_row-append_new,
}

pub data Call : Type 0 where
  begins : Text → Text → Text → Call
  completes fails : Text → Text → Call

module _ (sha256 : Text → Text) where
  pub perform_all : Effects → List Call → Effects
  perform_all s [] = s
  perform_all s (begins kind target request ∷ calls) =
      perform_all (begin_effect sha256 s kind target request).0 calls
  perform_all s (completes key result ∷ calls) = perform_all (complete_effect s key result) calls
  perform_all s (fails key error ∷ calls) = perform_all (fail_effect s key error) calls

-- The call does not complete or fail the effect with the key.
abbrev pub IsElsewhere : Text → Call → Type 0
IsElsewhere key (begins kind target request) = Unit {0}
IsElsewhere key (completes k result) = text_eq k key ≡ false
IsElsewhere key (fails k error) = text_eq k key ≡ false

abbrev outcome : Option Effect → Option (EffectState × Option Text)
outcome none = none
outcome (some r) = some (r.state, r.result)

-- The effect with the key is committed with the result.
abbrev pub IsDone : Text → Text → Effects → Type 0
IsDone key result s = outcome (find_row key_of key s.rows) ≡ some (committed, some result)

begin_found_done :
    (s : Effects) (key kind target request : Text) (c : ℕ) (t : Text) (o : Option Effect)
    → outcome o ≡ some (committed, some (c ∷ t))
    → begin_found s key kind target request o ≡ (s, key, true, some (c ∷ t), false)
begin_found_done s key kind target request c t none h = ground (arith, h)
begin_found_done s key kind target request c t (some r) h =
    let state : r.state ≡ committed = ap (λ o. elim o [ none ↦ r.state | some x ↦ x.0 ]) h in
    let result : r.result ≡ some (c ∷ t) = ap (λ o. elim o [ none ↦ r.result | some x ↦ x.1 ]) h in
    rw state (rw result refl)

-- An effect with another key that begins.
begin_found-IsDone :
    (key result : Text) (s : Effects) (k kind target request : Text) (o : Option Effect)
    → text_eq k key ≡ false
    → IsDone key result s
    → IsDone key result (begin_found s k kind target request o).0
begin_found-IsDone key result s k kind target request none other h =
    ap outcome (find_row-append_other key_of key s.rows (new_effect k kind target request) other)
    ∙ h
begin_found-IsDone key result s k kind target request (some r) other h =
    elim (Bool-cases (is_committed r.state)) [
      | inl done ↦ rw done h
      | inr open_one ↦ rw open_one (
          ap outcome
            (find_row-update_other key_of key k (λ r. true) restarted s.rows (λ r. refl) other)
          ∙ h)
    ]

module _ (sha256 : Text → Text) where
  begin_effect-IsDone :
      (key : Text) (c : ℕ) (t : Text) (s : Effects) (kind target request : Text)
      → IsDone key (c ∷ t) s
      → IsDone key (c ∷ t) (begin_effect sha256 s kind target request).0
  unfolding begin_effect
  begin_effect-IsDone key c t s kind target request h =
      let k : Text = effect_key_of sha256 kind target request in
      elim (Bool-cases (text_eq k key)) [
        | inl same ↦
            let o : outcome (find_row key_of k s.rows) ≡ some (committed, some (c ∷ t)) =
              ap (λ k. outcome (find_row key_of k s.rows)) ((text_eq_iff k key).0 same) ∙ h in
            subst (λ b. IsDone key (c ∷ t) b.0)
              (sym (begin_found_done s k kind target request c t (find_row key_of k s.rows) o)) h
        | inr other ↦
            begin_found-IsDone key (c ∷ t) s k kind target request (find_row key_of k s.rows) other
              h
      ]

  update-IsDone :
      (key result other : Text) (f : Effect → Effect) (rows : List Effect)
      → ((r : Effect) → (f r).effect_key ≡ r.effect_key)
      → text_eq other key ≡ false
      → outcome (find_row key_of key rows) ≡ some (committed, some result)
      → outcome (find_row key_of key (update_effect other f rows)) ≡ some (committed, some result)
  update-IsDone key result other f rows keeps differs h =
      ap outcome (find_row-update_other key_of key other (λ r. true) f rows keeps differs) ∙ h

  perform_all-IsDone :
      (key : Text) (c : ℕ) (t : Text) (s : Effects) (calls : List Call)
      → All (IsElsewhere key) calls
      → IsDone key (c ∷ t) s
      → IsDone key (c ∷ t) (perform_all sha256 s calls)
  unfolding perform_all complete_effect fail_effect
  perform_all-IsDone key c t s [] elsewhere h = h
  perform_all-IsDone key c t s (begins kind target request ∷ calls) elsewhere h =
      perform_all-IsDone key c t (begin_effect sha256 s kind target request).0 calls elsewhere.1
        (begin_effect-IsDone key c t s kind target request h)
  perform_all-IsDone key c t s (completes k result ∷ calls) elsewhere h =
      perform_all-IsDone key c t (complete_effect s k result) calls elsewhere.1
        (update-IsDone key (c ∷ t) k (completed result) s.rows (λ r. refl) elsewhere.0 h)
  perform_all-IsDone key c t s (fails k error ∷ calls) elsewhere h =
      perform_all-IsDone key c t (fail_effect s k error) calls elsewhere.1
        (update-IsDone key (c ∷ t) k (gone_wrong error) s.rows (λ r. refl) elsewhere.0 h)

  -- The completion of an effect that has a row.
  completed_row :
      (key result : Text) (rows : List Effect) (r : Effect)
      → find_row key_of key rows ≡ some r
      → outcome (find_row key_of key (update_effect key (completed result) rows))
        ≡ some (committed, some result)
  completed_row key result rows r h = ap outcome (
      find_row-update key_of key (λ r. true) (completed result) rows (λ r. refl)
      ∙ ap (update_found key_of (λ r. true) (completed result)) h)

  completed_found :
      (s : Effects) (key kind target request result : Text) (o : Option Effect)
      → find_row key_of key s.rows ≡ o
      → IsDone key result (complete_effect (begin_found s key kind target request o).0 key result)
  unfolding complete_effect
  completed_found s key kind target request result none h =
      completed_row key result (s.rows ++ new_effect key kind target request ∷ [])
        (new_effect key kind target request)
        (find_row-append_new key_of key s.rows (new_effect key kind target request) h refl)
  completed_found s key kind target request result (some r) h =
      elim (Bool-cases (is_committed r.state)) [
        | inl done ↦ rw done (completed_row key result s.rows r h)
        | inr open_one ↦ rw open_one (
            completed_row key result (update_effect key restarted s.rows) (restarted r) (
              find_row-update key_of key (λ r. true) restarted s.rows (λ r. refl)
              ∙ ap (update_found key_of (λ r. true) restarted) h))
      ]

  -- Once an effect was begun and completed with a result, it is not carried out again: whatever
  -- effects are begun and whatever other effects are completed or fail from then on, to begin it
  -- changes no row and reports that it is done, with that result.
  pub begin_effect-once :
      (s : Effects) (kind target request : Text) (c : ℕ) (t : Text) (calls : List Call)
      → All (IsElsewhere (effect_key_of sha256 kind target request)) calls
      → let key : Text = effect_key_of sha256 kind target request in
        let begun : Effects = (begin_effect sha256 s kind target request).0 in
        let later : Effects = perform_all sha256 (complete_effect begun key (c ∷ t)) calls in
        begin_effect sha256 later kind target request ≡ (later, key, true, some (c ∷ t), false)
  unfolding begin_effect
  begin_effect-once s kind target request c t calls elsewhere =
      let key : Text = effect_key_of sha256 kind target request in
      let found : Option Effect = find_row key_of key s.rows in
      let done : Effects =
        complete_effect (begin_found s key kind target request found).0 key (c ∷ t) in
      let later : Effects = perform_all sha256 done calls in
      begin_found_done later key kind target request c t (find_row key_of key later.rows) (
        perform_all-IsDone key c t done calls elsewhere
          (completed_found s key kind target request (c ∷ t) found refl))
