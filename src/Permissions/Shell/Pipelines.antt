-- ===== src/Permissions/Shell/Pipelines.antt =====
-- Splitting a command line on its unquoted pipes: `_split_pipeline` (permissions.py).
use noah_code.Prelude.{ℕ, suc, ◌≤◌, ◌<◌, ◌≡◌, ◌≢◌, refl, arith, true, List, [], ◌∷◌, length, All}
use noah_code.Python.Text.{Text, codes, join, size}
use noah_code.Permissions.Shell.{
  Quotes, split_from, split_pipeline, push_first, outside, turn, several,
}

split_from-ne-nil : (q : Quotes) (s : Text) → split_from q s ≢ []
unfolding split_from
split_from-ne-nil q [] e = cc
split_from-ne-nil q (c ∷ s) e = ground arith

join-push_first :
    (c : ℕ) (ws : List Text)
    → ws ≢ []
    → join (codes "|") (push_first c ws) ≡ c ∷ join (codes "|") ws
unfolding join
join-push_first c [] h = absurd (h refl)
join-push_first c (w ∷ []) h = refl
join-push_first c (w ∷ v ∷ ws) h = refl

join-cut : (ws : List Text) → ws ≢ [] → join (codes "|") ([] ∷ ws) ≡ b'|' ∷ join (codes "|") ws
unfolding join
join-cut [] h = absurd (h refl)
join-cut (w ∷ ws) h = refl

join-split_from : (s : Text) (q : Quotes) → join (codes "|") (split_from q s) ≡ s
unfolding split_from
join-split_from [] q = unfold join in refl
join-split_from (c ∷ s) q = ground (
  arith,
  join-push_first c (split_from (turn q c) s) (split_from-ne-nil (turn q c) s),
  join-push_first c (split_from q s) (split_from-ne-nil q s),
  join-cut (split_from q s) (split_from-ne-nil q s),
  join-split_from s (turn q c),
  join-split_from s q,
)

-- Joining the segments by pipes gives the command line back, character for character.
pub join-split_pipeline : (s : Text) → join (codes "|") (split_pipeline s) ≡ s
unfolding split_pipeline
join-split_pipeline s = join-split_from s outside

size-push_first : (c : ℕ) (ws : List Text) → ws ≢ [] → size (push_first c ws) ≡ suc (size ws)
unfolding size
size-push_first c [] h = absurd (h refl)
size-push_first c (w ∷ ws) h = omega arith

size_cut : (ws : List Text) → size ([] ∷ ws) ≡ suc (size ws)
unfolding size
size_cut ws = omega arith

size-split_from : (s : Text) (q : Quotes) → size (split_from q s) ≡ suc (length s)
unfolding split_from
size-split_from [] q = unfold size in omega arith
size-split_from (c ∷ s) q = ground (
  arith,
  size-push_first c (split_from (turn q c) s) (split_from-ne-nil (turn q c) s),
  size-push_first c (split_from q s) (split_from-ne-nil q s),
  size_cut (split_from q s),
  size-split_from s (turn q c),
  size-split_from s q,
)

All-lt-size : (l : List Text) (n : ℕ) → size l ≤ n → All (λ w. length w < n) l
unfolding size
All-lt-size [] n h = tt
All-lt-size (w ∷ l) n h = (omega arith, All-lt-size l n (omega arith))

-- Where there are several segments, each is shorter than the command line.
pub split_pipeline-shorter :
    (s : Text)
    → several (split_pipeline s) ≡ true
    → All (λ w. length w < length s) (split_pipeline s)
unfolding split_pipeline size
split_pipeline-shorter s h = shorter (split_from outside s) h (size-split_from s outside)
  where
    shorter :
        (l : List Text)
        → several l ≡ true
        → size l ≡ suc (length s)
        → All (λ w. length w < length s) l
    shorter [] h e = cc
    shorter (a ∷ []) h e = cc
    shorter (a ∷ b ∷ l) h e = (omega arith, All-lt-size (b ∷ l) (length s) (omega arith))
