-- ===== src/Permissions/Wrappers/Termination.antt =====
-- The search of `_effective_shell_tokens` (permissions.py) and the fuel of its model.
use noah_code.Prelude.{
  ℕ, zero, suc, ◌+◌, ◌≤◌, ◌<◌, ◌≡◌, ◌⊎◌, inl, inr, refl, arith, Bool, true, false, Option, none,
  some, List, [], ◌∷◌, ◌++◌, length,
}
use noah_code.Python.Text.{Text, size, after?}
use noah_code.Python.Shlex
use noah_code.Python.Shlex.Size.{size-split}
use noah_code.Permissions.Wrappers.{
  Step, resume, query, respawn, after_command, after_builtin, after_env, unwrap, skip_assignments,
  effective_within, effective_shell_tokens, respawned, proceed,
}
use noah_code.Python.Text.Laws.{size-append}

size-skip_assignments : (l : List Text) → size (skip_assignments l) ≤ size l
unfolding skip_assignments size
size-skip_assignments [] = omega arith
size-skip_assignments (t ∷ l) = ground (arith, size-skip_assignments l)

after_command_resume : (l r : List Text) → after_command l ≡ resume r → size r ≤ size l
unfolding after_command size
after_command_resume [] r e = ground arith
after_command_resume (t ∷ l) r e = ground (arith, after_command_resume l r)

after_command_respawn :
    (l : List Text) (v : Text) (r : List Text) → after_command l ≡ respawn v r → ⊥
unfolding after_command
after_command_respawn [] v r e = cc
after_command_respawn (t ∷ l) v r e = ground (arith, after_command_respawn l v r)

length-after? : (c : ℕ) (s v : Text) → after? c s ≡ some v → length v < length s
unfolding after?
length-after? c [] v e = cc
length-after? c (d ∷ s) v e = ground (arith, length-after? c s v)

after_env_resume :
    (l : List Text) (skip : Bool) (r : List Text) → after_env skip l ≡ resume r → size r ≤ size l
unfolding after_env size
after_env_resume [] true r e = cc
after_env_resume [] false r e = cc
after_env_resume (t ∷ l) true r e = omega (arith, after_env_resume l false r e)
after_env_resume (t ∷ l) false r e =
    ground (arith, after_env_resume l false r, after_env_resume l true r)

after_env_respawn :
    (l : List Text) (skip : Bool) (v : Text) (r : List Text)
    → after_env skip l ≡ respawn v r
    → suc (length v + size r) ≤ size l
unfolding after_env size
after_env_respawn [] true v r e = cc
after_env_respawn [] false v r e = cc
after_env_respawn (t ∷ l) true v r e = omega (arith, after_env_respawn l false v r e)
after_env_respawn (t ∷ l) false v r e =
    ground
      (arith, after_env_respawn l false v r, after_env_respawn l true v r, length-after? b'=' t v)

builtin_resume : (l r : List Text) → after_builtin l ≡ resume r → size r ≤ size l
unfolding after_builtin size
builtin_resume [] r e = ground arith
builtin_resume (t ∷ l) r e = ground arith

builtin_respawn : (l : List Text) (v : Text) (r : List Text) → after_builtin l ≡ respawn v r → ⊥
unfolding after_builtin
builtin_respawn [] v r e = cc
builtin_respawn (t ∷ l) v r e = ground arith

unwrap_resume : (t : Text) (l r : List Text) → unwrap t l ≡ some (resume r) → size r ≤ size l
unfolding unwrap
unwrap_resume t l r e =
    ground (arith, after_command_resume l r, builtin_resume l r, after_env_resume l false r)

unwrap_respawn :
    (t : Text) (l : List Text) (v : Text) (r : List Text)
    → unwrap t l ≡ some (respawn v r)
    → suc (length v + size r) ≤ size l
unfolding unwrap
unwrap_respawn t l v r e =
    ground
      (arith, after_command_respawn l v r, builtin_respawn l v r, after_env_respawn l false v r)

-- The first token is no wrapper that could still be resolved: no wrapper at all, one that only
-- answers a query, or an `env -S` whose text does not split.
abbrev pub IsSettled : List Text → Type 0
IsSettled [] = Unit
IsSettled (t ∷ l) =
    (unwrap t l ≡ none)
    ⊎ (unwrap t l ≡ some query)
    ⊎ ((v : Text) × (r : List Text) × (unwrap t l ≡ some (respawn v r)) × (Shlex.split v ≡ none))

module _ (fuel : ℕ)
    (ih : (l : List Text) → size l ≤ fuel → IsSettled (effective_within fuel l)) where
  respawned-IsSettled :
      (t : Text) (l : List Text) (v : Text) (r : List Text) (w : Option (List Text))
      → size (t ∷ l) ≤ suc fuel
      → unwrap t l ≡ some (respawn v r)
      → Shlex.split v ≡ w
      → IsSettled (respawned (effective_within fuel) (t ∷ l) r w)
  unfolding respawned
  respawned-IsSettled t l v r none h u s = inr (inr (v, r, u, s))
  respawned-IsSettled t l v r (some w) h u s = ih (skip_assignments (w ++ r)) (
      unfold size in
      omega (
        arith,
        size-skip_assignments (w ++ r),
        size-append w r,
        size-split v w s,
        unwrap_respawn t l v r u,
      ))

  proceed-IsSettled :
      (t : Text) (l : List Text) (o : Option Step)
      → size (t ∷ l) ≤ suc fuel
      → unwrap t l ≡ o
      → IsSettled (proceed (effective_within fuel) (t ∷ l) o)
  unfolding proceed
  proceed-IsSettled t l none h u = inl u
  proceed-IsSettled t l (some (resume r)) h u =
      ih r (unfold size in omega (arith, unwrap_resume t l r u))
  proceed-IsSettled t l (some query) h u = inr (inl u)
  proceed-IsSettled t l (some (respawn v r)) h u =
      respawned-IsSettled t l v r (Shlex.split v) h u refl

effective_within-IsSettled :
    (fuel : ℕ) (l : List Text) → size l ≤ fuel → IsSettled (effective_within fuel l)
unfolding effective_within
effective_within-IsSettled fuel [] h = tt
effective_within-IsSettled zero (t ∷ l) h = absurd (unfold size in omega arith)
effective_within-IsSettled (suc fuel) (t ∷ l) h =
    proceed-IsSettled fuel (effective_within-IsSettled fuel) t l (unwrap t l) h refl

-- For every list of tokens the search through assignments, `command`, `builtin` and `env` comes
-- to an end within its fuel: what it returns is empty, begins with no wrapper, or begins with
-- one that it leaves on purpose, a query or a text to split that does not split.
pub effective_shell_tokens-IsSettled :
    (tokens : List Text) → IsSettled (effective_shell_tokens tokens)
unfolding effective_shell_tokens
effective_shell_tokens-IsSettled tokens =
    effective_within-IsSettled (size tokens) (skip_assignments tokens)
      (size-skip_assignments tokens)
