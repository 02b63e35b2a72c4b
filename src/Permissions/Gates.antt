-- ===== src/Permissions/Gates.antt =====
-- The denials by content and by plan mode, and what counts as elevated risk (permissions.py).
use noah_code.Prelude.{
  String, Bool, true, false, ◌&&◌, ◌||◌, not, Option, none, some, List, [], ◌∷◌, if◌then◌else◌, any,
  null,
}
use noah_code.Python.Text.{
  Text, codes, texts, text_eq, member, contains, lower, strip, before, join,
}
use noah_code.Python.FilePath
use noah_code.Python.Shlex
use noah_code.Python.Shlex.{split_or_empty}
use noah_code.Python.Regex.{Regex, search_text}
use noah_code.Permissions.Types.{Action, deny, Category, edit, bash, github, Decision}
use noah_code.Permissions.Policy.Patterns.{always_deny_bash, always_ask_bash}
use noah_code.Permissions.SecretTokens.{is_secret_shell_token}
use noah_code.Permissions.Shell.{has_ambiguous_shell_expansion}
use noah_code.Permissions.ReadOnly.{is_filter, is_readonly_command}
use noah_code.Permissions.External.{command_has_external_path}
use noah_code.Permissions.Wrappers.{program_name, effective_shell_tokens}
use noah_code.Permissions.Interpreters.{is_env_dump, contains_executing_interpreter}

-- A decision with no rule and no tool, remembered by its target.
abbrev pub decision : Category → Text → Action → Text → Decision
decision category target action reason = record {
  category = category;
  target = target;
  action = action;
  matching_rule = none;
  reason = reason;
  remember_pattern = target;
  tool = [];
  elevated_floor = false;
}

abbrev pub refuse : Text → String → Option Decision
refuse command reason = some (decision bash command deny (codes reason))

-- The patterns are tried on the command and on its tokens joined by spaces.
unfoldable pub hits : List Regex → Text → Text → Bool
hits patterns command normalized_tokens =
    any
      (λ p.
        search_text p command || not (null normalized_tokens) && search_text p normalized_tokens)
      patterns

abbrev pub first_program : List Text → Text
first_program [] = []
first_program (t ∷ l) = program_name t

unfoldable pub is_destructive_git : List Text → Bool
is_destructive_git remaining =
    any (λ part. member part (texts ("push" ∷ "clean" ∷ "filter-branch" ∷ []))) remaining
    || member (codes "reset") remaining && member (codes "--hard") remaining

-- The loop over the tokens in `_hard_bash_deny`.
unfoldable pub deny_tokens : Bool → Text → List Text → Option Decision
unfolding is_destructive_git
deny_tokens auto command [] = none
deny_tokens auto command (token ∷ remaining) = elim (is_secret_shell_token token) [
  | true ↦ refuse command "secret or credential path denied"
  | false ↦ elim (text_eq (lower (FilePath.name token)) (codes "git")) [
    | false ↦ deny_tokens auto command remaining
    | true ↦ elim (is_destructive_git remaining) [
      | true ↦ refuse command "destructive git command denied"
      | false ↦ elim (auto && not (is_readonly_command command)) [
        | true ↦ refuse command "mutating or unrecognized git commands are not auto-approved"
        | false ↦ deny_tokens auto command remaining
      ]
    ]
  ]
]

unfoldable pub or_else : Option Decision → Option Decision → Option Decision
or_else none e = e
or_else (some d) e = some d

unfoldable pub refuse_if : Bool → Text → String → Option Decision
refuse_if b command reason = if b then refuse command reason else none

-- Of the engine's state only `auto_approve` is read.
unfoldable pub hard_bash_deny : Bool → Text → Option Decision
unfolding deny_tokens hits
hard_bash_deny auto_approve command =
    let tokens = split_or_empty (Shlex.split command) in
    let program = first_program (effective_shell_tokens tokens) in
    or_else
      (refuse_if (member program (texts ("env" ∷ "printenv" ∷ []))) command
        "credential dump denied")
      (or_else (deny_tokens auto_approve command tokens) (
        or_else
          (refuse_if (auto_approve && is_env_dump tokens) command
            "environment dump denied under auto-approval")
          (or_else
            (refuse_if (auto_approve && contains_executing_interpreter tokens) command
              "interpreter, eval, and indirect execution commands cannot be auto-approved")
            (or_else
              (refuse_if (auto_approve && has_ambiguous_shell_expansion command) command
                "ambiguous shell expansion cannot be auto-approved")
              (or_else
                (refuse_if (hits always_deny_bash command (join (codes " ") tokens)) command
                  "destructive or secret-exposing command denied")
                (refuse_if
                  (contains (lower command) (codes "aws_secret")
                    || contains (lower command) (codes "private key"))
                  command "credential dump denied"))))))

-- `unsafe_filter` of `_elevated_bash_ask`
abbrev unsafe_filter : Text → List Text → Bool
unsafe_filter command [] = false
unsafe_filter command (t ∷ l) = is_filter (program_name t) && not (is_readonly_command command)

unfoldable pub is_elevated : Text → Bool
unfolding hits
is_elevated command =
    let tokens = split_or_empty (Shlex.split command) in
    unsafe_filter command (effective_shell_tokens tokens)
    || hits always_ask_bash command (join (codes " ") tokens)

unfoldable pub mutates_github : Text → Bool
mutates_github target =
    member (lower (strip (before b':' target)))
      (texts ("create" ∷ "push" ∷ "checkout" ∷ "comment" ∷ []))

unfoldable pub plan_mode_gate : Category → Text → Option Decision
plan_mode_gate edit target = some (decision edit target deny (codes "plan mode forbids file edits"))
plan_mode_gate github target =
    if mutates_github target
    then some (decision github target deny (codes "plan mode forbids GitHub mutations"))
    else none
plan_mode_gate bash target =
    if not (is_readonly_command target)
    then refuse target "plan mode forbids mutating shell commands"
    else if command_has_external_path target
    then refuse target "plan mode forbids filesystem access outside the workspace"
    else none
plan_mode_gate category target = none
