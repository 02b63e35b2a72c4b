-- ===== src/Permissions/CommandExamples.antt =====
-- The theorems on the analysis of shell commands, applied to concrete commands.
use noah_code.Python.Shlex
use noah_code.Permissions.Tests.{program}
use noah_code.Permissions.Wrappers.Termination.{effective_shell_tokens-IsSettled, IsSettled}
use noah_code.Prelude.{
  All, true, length, [], false, ◌≡◌, ◌<◌, ◌∷◌, if◌then◌else◌, null, refl, all, some,
}
use noah_code.Permissions.ReadOnly.{is_readonly_command, is_readonly_simple}
use noah_code.Python.Text.{join, member, codes, texts, first_word, strip}
use noah_code.Permissions.Wrappers.{effective_shell_tokens}
use noah_code.Permissions.Shell.{
  split_pipeline, is_redirecting, is_compound, has_ambiguous_shell_expansion, several,
}
use noah_code.Permissions.ReadOnly.Trusted.{trusted_programs, is_readonly_simple-trusted}
use noah_code.Permissions.Shell.Pipelines.{join-split_pipeline, split_pipeline-shorter}
use noah_code.Permissions.ReadOnly.Termination.{is_readonly_command-recursion}

joins_pipeline : join (codes "|") (split_pipeline (codes "ls '|' | wc")) ≡ codes "ls '|' | wc"
joins_pipeline = join-split_pipeline (codes "ls '|' | wc")

is_piped : several (split_pipeline (codes "ls | wc")) ≡ true
unfolding program
is_piped = refl

segments_are_shorter :
    All (λ w. length w < length (codes "ls | wc")) (split_pipeline (codes "ls | wc"))
segments_are_shorter = split_pipeline-shorter (codes "ls | wc") is_piped

is_readonly_command-recursion_example : is_readonly_command (codes "ls | wc") ≡ (
    if null (strip (codes "ls | wc"))
    then true
    else if has_ambiguous_shell_expansion (strip (codes "ls | wc"))
    then false
    else if several (split_pipeline (strip (codes "ls | wc")))
    then all is_readonly_command (split_pipeline (strip (codes "ls | wc")))
    else is_readonly_simple (strip (codes "ls | wc")))
is_readonly_command-recursion_example = is_readonly_command-recursion (codes "ls | wc")

ls_simple : is_readonly_simple (codes "ls -l") ≡ true
unfolding program
ls_simple = refl

ls_tokens : Shlex.split (codes "ls -l") ≡ some (codes "ls" ∷ codes "-l" ∷ [])
unfolding program
ls_tokens = refl

is_readonly_simple-trusted_example :
    (member (codes "ls") trusted_programs ≡ true)
    × (first_word (codes "ls -l") ≡ codes "ls")
    × (is_redirecting (codes "ls -l") ≡ false)
    × (is_compound (codes "ls -l") ≡ false)
is_readonly_simple-trusted_example =
    is_readonly_simple-trusted (codes "ls -l") (codes "ls") (codes "-l" ∷ []) ls_simple ls_tokens

effective_shell_tokens-IsSettled_example :
    IsSettled (effective_shell_tokens (texts ("A=1" ∷ "env" ∷ "-u" ∷ "X" ∷ "ls" ∷ [])))
effective_shell_tokens-IsSettled_example =
    effective_shell_tokens-IsSettled (texts ("A=1" ∷ "env" ∷ "-u" ∷ "X" ∷ "ls" ∷ []))
