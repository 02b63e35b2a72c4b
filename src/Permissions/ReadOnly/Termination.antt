-- ===== src/Permissions/ReadOnly/Termination.antt =====
-- The recursion of `is_readonly_command` (permissions.py) and the fuel of its model.
use noah_code.Prelude.{
  ℕ, zero, suc, ◌<◌, ◌≡◌, arith, Bool, true, false, all, null, length, All, if◌then◌else◌,
  Bool-cases, all-cong, All-map, inl, ◌⊎◌, inr, ◌∙◌,
}
use noah_code.Python.Text.{Text, strip}
use noah_code.Permissions.Shell.{split_pipeline, several, has_ambiguous_shell_expansion}
use noah_code.Permissions.ReadOnly.{
  readonly_within, is_readonly_command, is_readonly_simple, readonly_body,
}
use noah_code.Python.Text.Laws.{length-strip}
use noah_code.Permissions.Shell.Pipelines.{split_pipeline-shorter}

readonly_body-cong :
    (p q : Text → Bool) (cmd : Text)
    → All (λ w. p w ≡ q w) (split_pipeline cmd) ⊎ (several (split_pipeline cmd) ≡ false)
    → readonly_body (all p) cmd ≡ readonly_body (all q) cmd
unfolding readonly_body
readonly_body-cong p q cmd (inl h) = ground (arith, all-cong p q (split_pipeline cmd) h)
readonly_body-cong p q cmd (inr h) = ground arith

-- Any two amounts of fuel above the length give the same answer.
pub readonly_within_enough :
    (f g : ℕ) (c : Text) → length c < f → length c < g → readonly_within f c ≡ readonly_within g c
unfolding readonly_within
readonly_within_enough zero g c h k = absurd (omega arith)
readonly_within_enough (suc f) zero c h k = absurd (omega arith)
readonly_within_enough (suc f) (suc g) c h k =
    readonly_body-cong (readonly_within f) (readonly_within g) (strip c)
      (elim (Bool-cases (several (split_pipeline (strip c)))) [
        | inl many ↦ inl (
            All-map (split_pipeline (strip c))
              (λ w shorter.
                readonly_within_enough f g w (omega (arith, length-strip c))
                  (omega (arith, length-strip c)))
              (split_pipeline-shorter (strip c) many))
        | inr one ↦ inr one
      ])

-- The source's own recursion holds for every command line: it is blank, refused for an
-- expansion, a pipeline whose segments are all read-only, or a simple command. So the fuel of
-- the model is enough.
pub is_readonly_command-recursion :
    (command : Text)
    → is_readonly_command command ≡ (
        if null (strip command)
        then true
        else if has_ambiguous_shell_expansion (strip command)
        then false
        else if several (split_pipeline (strip command))
        then all is_readonly_command (split_pipeline (strip command))
        else is_readonly_simple (strip command))
unfolding is_readonly_command
is_readonly_command-recursion command =
    readonly_body-cong (readonly_within (length command)) is_readonly_command (strip command)
      (elim (Bool-cases (several (split_pipeline (strip command)))) [
        | inl many ↦ inl (
            All-map (split_pipeline (strip command))
              (λ w shorter.
                readonly_within_enough (length command) (suc (length w)) w
                  (omega (arith, length-strip command)) (omega arith))
              (split_pipeline-shorter (strip command) many))
        | inr one ↦ inr one
      ])
    ∙ ground arith
