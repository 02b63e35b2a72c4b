-- ===== src/Permissions/Tests.antt =====
-- Decisions on concrete commands and paths, as the source makes them.
use noah_code.Prelude.{String, Bool, true, false, ◌≡◌, refl, [], ◌∷◌, some}
use noah_code.Python.Text.{
  codes, texts, strip, lower, before, starts_with, ends_with, contains, text_eq, member, rsplit?,
  after?, split_on, join, first_word, size,
}
use noah_code.Python.FilePath
use noah_code.Python.Fnmatch.{fnmatch}
use noah_code.Python.Shlex
use noah_code.Python.Regex.{search_text, fullmatch, sub_empty}
use noah_code.Permissions.Types.{Action, allow, ask, deny, bash, Rule, Engine, build}
use noah_code.Permissions.Policy.Patterns.{
  devnull_redirect, mutating_git, always_ask_bash, always_deny_bash,
}
use noah_code.Permissions.Secrets.{is_secret_path}
use noah_code.Permissions.SecretTokens.{is_secret_shell_token}
use noah_code.Permissions.Git.{git_unscoped_patch_output, is_readonly_git}
use noah_code.Permissions.External.{command_has_external_path}
use noah_code.Permissions.ReadOnly.{
  is_readonly_command, is_readonly_simple, is_readonly_program, is_readonly_rg,
  is_mutating_find_flag, is_readonly_filter, is_filter,
}
use noah_code.Permissions.Wrappers.{
  effective_shell_tokens, skip_assignments, unwrap, program_name, after_command, after_builtin,
  after_env, is_assignment, env_split_options, env_options_with_value,
}
use noah_code.Permissions.Interpreters.{is_env_dump, contains_executing_interpreter}
use noah_code.Permissions.Engine.{
  match_rule, hard_deny, plan_deny, normalize, decide, decide_guarded, decide_by_rules,
  session_allows,
}
use noah_code.Permissions.Gates.{
  hard_bash_deny, or_else, refuse_if, plan_mode_gate, is_elevated, mutates_github,
}
use noah_code.Permissions.Shell.{
  has_ambiguous_shell_expansion, split_pipeline, is_redirecting, is_compound,
}
use noah_code.Permissions.Policy.Flags.{read_only_programs}

unfoldable pub program : Unit {0}
unfolding strip lower before starts_with ends_with contains text_eq member rsplit? after? split_on
    join first_word FilePath.name FilePath.parts FilePath.to_text fnmatch Shlex.split
    Shlex.join_tokens search_text fullmatch sub_empty devnull_redirect mutating_git always_ask_bash
    always_deny_bash is_secret_path is_secret_shell_token git_unscoped_patch_output
    command_has_external_path skip_assignments size unwrap program_name after_command after_builtin
    after_env is_assignment env_split_options env_options_with_value is_readonly_command
    has_ambiguous_shell_expansion split_pipeline is_readonly_simple is_readonly_program
    is_redirecting is_compound is_readonly_git is_readonly_rg is_mutating_find_flag
    is_readonly_filter is_filter read_only_programs effective_shell_tokens is_env_dump
    contains_executing_interpreter match_rule hard_bash_deny hard_deny plan_deny normalize or_else
    refuse_if plan_mode_gate decide decide_guarded decide_by_rules session_allows is_elevated
    mutates_github
program = tt

abbrev pub bash_ask : Rule
bash_ask = record {
  category = codes "bash";
  pattern = codes "*";
  action = ask;
  reason = codes "non-read-only shell commands require approval";
}

abbrev pub engine : Bool → Engine
engine auto = record {
  rules = bash_ask ∷ [];
  mode = build;
  auto_approve = auto;
  yolo = false;
  session_rules = [];
}

abbrev pub run : Bool → String → Action
run auto c = (decide (engine auto) bash (codes c) []).action

shlex_quotes :
    Shlex.split (codes "a 'b c' d\\ e \"f\\\"g\" ''")
    ≡ some (texts ("a" ∷ "b c" ∷ "d e" ∷ "f\"g" ∷ "" ∷ []))
unfolding program
shlex_quotes = refl

list_files : run false "ls -la src" ≡ allow
unfolding program
list_files = refl

piped : run false "git status | head -5 2>/dev/null" ≡ allow
unfolding program
piped = refl

pushed : run false "git push origin main" ≡ deny
unfolding program
pushed = refl

split_rm : run false "r''m -rf /" ≡ deny
unfolding program
split_rm = refl

removed : run true "rm notes.txt" ≡ ask
unfolding program
removed = refl

tested : run true "cargo test" ≡ allow
unfolding program
tested = refl

interpreted : run true "env FOO=1 python3 x.py" ≡ deny
unfolding program
interpreted = refl

secret_glob : run false "cat id_rs*" ≡ deny
unfolding program
secret_glob = refl

git_object : run false "git show HEAD:.env" ≡ deny
unfolding program
git_object = refl

wrapped :
    effective_shell_tokens
      (texts ("A=1" ∷ "env" ∷ "-u" ∷ "X" ∷ "-S" ∷ "command -- ls -l" ∷ "src" ∷ []))
    ≡ texts ("ls" ∷ "-l" ∷ "src" ∷ [])
unfolding program
wrapped = refl
