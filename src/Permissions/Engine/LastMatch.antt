-- ===== src/Permissions/Engine/LastMatch.antt =====
-- The loop over the rules in `_decide` (permissions.py) and its specification.
use noah_code.Prelude.{
  Bool, true, false, ◌≡◌, ◌⊎◌, inl, inr, refl, Option, none, some, List, [], ◌∷◌, ◌++◌, All,
  All-append, Bool-cases, ap, if◌then◌else◌, subst,
}
use noah_code.Python.Text.{Text}
use noah_code.Permissions.Types.{Rule, Engine, Category}
use noah_code.Permissions.Engine.{Found, match_rule, last_match, matching}
use mathlib.Core.List.{append_assoc}

module _ (c : Category) (t : Text) where
  -- No rule of the list matches.
  abbrev pub NoMatch : List Rule → Type 0
  NoMatch = All (λ r. match_rule r c t ≡ false)

  -- The rule matches, and no later one of the list does.
  pub record IsLast (l : List Rule) (r : Rule) : Type 0 where
    pub earlier : List Rule
    pub later : List Rule
    pub splits : l ≡ earlier ++ r ∷ later
    pub hit : match_rule r c t ≡ true
    pub no_later : NoMatch later

  IsLast-cons : (r : Rule) {l : List Rule} {x : Rule} → IsLast l x → IsLast (r ∷ l) x
  IsLast-cons r {x} h = record {
    earlier = r ∷ h.earlier;
    later = h.later;
    splits = ap (◌∷◌ r) h.splits;
    hit = h.hit;
    no_later = h.no_later;
  }

  IsLast-prepend : (k l : List Rule) {x : Rule} → IsLast l x → IsLast (k ++ l) x
  IsLast-prepend [] l h = h
  IsLast-prepend (r ∷ k) l h = IsLast-cons r (IsLast-prepend k l h)

  IsLast-append : (k l : List Rule) {x : Rule} → IsLast k x → NoMatch l → IsLast (k ++ l) x
  IsLast-append k l {x} h n = record {
    earlier = h.earlier;
    later = h.later ++ l;
    splits = rw h.splits (append_assoc h.earlier (x ∷ h.later) l);
    hit = h.hit;
    no_later = All-append _ h.later l h.no_later n;
  }

  -- What the loop gives: the found rule is the one it began with, or the last match of the list.
  abbrev Outcome : Bool → Option Found → List Rule → Option Found → Type 0
  Outcome s f l none = (f ≡ none) × NoMatch l
  Outcome s f l (some g) = ((f ≡ some g) × NoMatch l) ⊎ (IsLast l g.rule × (g.from_session ≡ s))

  Outcome-cons :
      (s : Bool) (f : Option Found) (r : Rule) (l : List Rule) (o : Option Found)
      → match_rule r c t ≡ false
      → Outcome s f l o
      → Outcome s f (r ∷ l) o
  Outcome-cons s f r l none m h = (h.0, (m, h.1))
  Outcome-cons s f r l (some g) m (inl h) = inl (h.0, (m, h.1))
  Outcome-cons s f r l (some g) m (inr h) = inr (IsLast-cons r h.0, h.1)

  Outcome-found :
      (s : Bool) (f : Option Found) (r : Rule) (l : List Rule) (o : Option Found)
      → match_rule r c t ≡ true
      → Outcome s (some (record { rule = r; from_session = s })) l o
      → Outcome s f (r ∷ l) o
  Outcome-found s f r l none m h = cc (h.0)
  Outcome-found s f r l (some g) m (inl h) =
      let here : Found = record { rule = r; from_session = s } in
      let e : here ≡ g = cc (h.0) in
      subst (λ x. Outcome s f (r ∷ l) (some x)) e
        (inr (record { earlier = []; later = l; splits = refl; hit = m; no_later = h.1 }, refl))
  Outcome-found s f r l (some g) m (inr h) = inr (IsLast-cons r h.0, h.1)

  last_match-Outcome :
      (l : List Rule) (s : Bool) (f : Option Found) → Outcome s f l (last_match s f l c t)
  unfolding last_match
  last_match-Outcome [] s none = (refl, tt)
  last_match-Outcome [] s (some g) = inl (refl, tt)
  last_match-Outcome (r ∷ l) s f = elim (Bool-cases (match_rule r c t)) [
    | inl m ↦ rw m (
        Outcome-found s f r l _ m
          (last_match-Outcome l s (some (record { rule = r; from_session = s }))))
    | inr m ↦ rw m (Outcome-cons s f r l _ m (last_match-Outcome l s f))
  ]

-- What `matching` answers: the last match among the rules and, behind them, the session's, with
-- the mark of the list that it came from, or none where no rule matches.
abbrev pub IsMatching : Engine → Category → Text → Option Found → Type 0
IsMatching e c t none = NoMatch c t (e.rules ++ e.session_rules)
IsMatching e c t (some f) =
    IsLast c t (e.rules ++ e.session_rules) f.rule
    × (if f.from_session then IsLast c t e.session_rules f.rule else NoMatch c t e.session_rules)

both :
    (e : Engine) (c : Category) (t : Text) (f o : Option Found)
    → Outcome c t false none e.rules f
    → Outcome c t true f e.session_rules o
    → IsMatching e c t o
both e c t none none h k = All-append _ e.rules e.session_rules h.1 k.1
both e c t none (some g) h (inl k) = cc (k.0)
both e c t f (some g) h (inr (last, mark)) =
    (IsLast-prepend c t e.rules e.session_rules last, rw mark last)
both e c t (some f) none h k = cc (k.0)
both e c t (some f) (some g) (inl h) (inl k) = cc (h.0)
both e c t (some f) (some g) (inr (last, mark)) (inl (p, no_match)) =
    let same : f ≡ g = cc in
    subst (λ x. IsMatching e c t (some x)) same
      (IsLast-append c t e.rules e.session_rules last no_match, rw mark no_match)

-- Last match wins: the loop over the configured rules and then the session's rules finds the
-- last rule that matches, marked with the list that it stands in, or finds none where no rule
-- matches.
pub matching-IsMatching : (e : Engine) (c : Category) (t : Text) → IsMatching e c t (matching e c t)
unfolding matching
matching-IsMatching e c t =
    both e c t _ _ (last_match-Outcome c t e.rules false none)
      (last_match-Outcome c t e.session_rules true _)
