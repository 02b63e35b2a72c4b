-- ===== src/Permissions/Engine.antt =====
-- `PermissionEngine` (permissions.py).
pub mod Denials
pub mod Commands
pub mod Approvals
pub mod LastMatch
use noah_code.Prelude.{
  String, Bool, true, false, ◌&&◌, ◌||◌, not, Option, none, some, List, [], ◌∷◌, ◌++◌,
  if◌then◌else◌, any, null,
}
use noah_code.Python.Text.{
  Text, codes, texts, text_eq, member, contains, lower, strip, before, join,
}
use noah_code.Python.FilePath
use noah_code.Python.Fnmatch.{fnmatch}
use noah_code.Python.Shlex
use noah_code.Python.Shlex.{split_or_empty}
use noah_code.Python.Regex.{Regex, search_text}
use noah_code.Permissions.Types.{
  Action, allow, ask, deny, Category, edit, bash, github, label, is_bash, reads_or_edits, is_allow,
  is_ask, Rule, Decision, Mode, plan, build, Engine,
}
use noah_code.Permissions.Policy.Patterns.{always_deny_bash, always_ask_bash}
use noah_code.Permissions.Secrets.{is_secret_path}
use noah_code.Permissions.SecretTokens.{is_secret_shell_token}
use noah_code.Permissions.Shell.{has_ambiguous_shell_expansion}
use noah_code.Permissions.Git.{git_unscoped_patch_output}
use noah_code.Permissions.ReadOnly.{is_filter, is_readonly_command}
use noah_code.Permissions.External.{command_has_external_path}
use noah_code.Permissions.Wrappers.{program_name, effective_shell_tokens}
use noah_code.Permissions.Interpreters.{is_env_dump, contains_executing_interpreter}
use noah_code.Permissions.Gates.{is_elevated, decision, plan_mode_gate, hard_bash_deny}

unfoldable pub match_rule : Rule → Category → Text → Bool
match_rule rule category target =
    (text_eq rule.category (codes "*") || text_eq rule.category (label category))
    && fnmatch target rule.pattern

unfoldable pub add_session_rule : Engine → Rule → Engine
add_session_rule e rule = record e { session_rules = e.session_rules ++ rule ∷ [] }

unfoldable pub session_allows : Engine → Text → Bool
session_allows e command = any (λ r. is_allow r.action && match_rule r bash command) e.session_rules

unfoldable pub elevated_bash_ask : Engine → Text → Option Decision
elevated_bash_ask e command =
    if session_allows e command
    then none
    else if is_elevated command
    then some
        (record (decision bash command ask
          (codes "elevated-risk shell command requires approval")) { elevated_floor = true })
    else none

-- A rule that matched, and whether it is one of the session's.
pub record Found : Type 0 where
  pub rule : Rule
  pub from_session : Bool

-- The loop over the rules: the last that matches wins.
unfoldable pub last_match : Bool → Option Found → List Rule → Category → Text → Option Found
last_match session found [] category target = found
last_match session found (r ∷ l) category target =
    last_match session
      (if match_rule r category target
        then some (record { rule = r; from_session = session })
        else found)
      l category target

unfoldable pub matching : Engine → Category → Text → Option Found
unfolding last_match
matching e category target =
    last_match true (last_match false none e.rules category target) e.session_rules category target

-- What the rules say, before the adjustments: an action, its reason and the rule.
pub record Verdict : Type 0 where
  pub action : Action
  pub reason : Text
  pub rule : Option Rule
  pub elevated : Bool

unfoldable pub verdict_of : Option Found → Verdict
verdict_of none = record {
  action = ask;
  reason = codes "no matching rule; default ask";
  rule = none;
  elevated = false;
}
verdict_of (some f) = record {
  action = f.rule.action;
  reason = if null f.rule.reason then codes "matched " ++ f.rule.pattern else f.rule.reason;
  rule = some f.rule;
  elevated = false;
}

abbrev pub builtin_ask : Option Found → Bool
builtin_ask none = false
builtin_ask (some f) =
    text_eq f.rule.reason (codes "non-read-only shell commands require approval")
    && not f.from_session

-- The built-in ask for shell commands does not hold up read-only work in the workspace.
unfoldable pub bump_read_only : Option Found → Category → Text → Verdict → Verdict
bump_read_only found category target v =
    if is_bash category
      && is_ask v.action
      && builtin_ask found
      && is_readonly_command target
      && not (command_has_external_path target)
      && not (git_unscoped_patch_output target)
    then record v { action = allow; reason = codes "read-only workspace shell command allowed" }
    else v

unfoldable pub auto_approved : Bool → Verdict → Verdict
auto_approved auto v =
    if is_ask v.action && auto
    then record v { action = allow; reason = v.reason ++ codes " (auto-approved)" }
    else v

abbrev pub floored : Verdict → Option Decision → Verdict
floored v none = v
floored v (some d) = record {
  action = d.action;
  reason = d.reason;
  rule = d.matching_rule;
  elevated = true;
}

unfoldable pub apply_elevated_floor : Engine → Category → Text → Verdict → Verdict
unfolding elevated_bash_ask
apply_elevated_floor e category target v =
    if is_bash category && is_allow v.action then floored v (elevated_bash_ask e target) else v

-- The verdict before the floor: the rule's, the bump for read-only commands, auto-approval.
unfoldable pub rules_verdict : Bool → Option Found → Category → Text → Verdict
unfolding verdict_of bump_read_only auto_approved
rules_verdict auto found category target =
    auto_approved auto (bump_read_only found category target (verdict_of found))

abbrev pub concluded : Category → Text → Verdict → Decision
concluded category target v = record {
  category = category;
  target = target;
  action = v.action;
  matching_rule = v.rule;
  reason = v.reason;
  remember_pattern = target;
  tool = [];
  elevated_floor = v.elevated;
}

unfoldable pub decide_by_rules : Engine → Category → Text → Decision
unfolding matching rules_verdict apply_elevated_floor
decide_by_rules e category target = concluded category target (
    apply_elevated_floor e category target
      (rules_verdict e.auto_approve (matching e category target) category target))

-- `target.strip() or "*"`
unfoldable pub normalize : Text → Text
normalize target = let t = strip target in if null t then codes "*" else t

unfoldable pub hard_deny : Bool → Category → Text → Option Decision
hard_deny auto_approve category target =
    if reads_or_edits category && is_secret_path target
    then some (decision category target deny (codes "secret or credential path denied"))
    else if is_bash category
    then hard_bash_deny auto_approve target
    else none

unfoldable pub plan_deny : Mode → Category → Text → Option Decision
plan_deny plan category target = plan_mode_gate category target
plan_deny build category target = none

abbrev pub decided : Option Decision → Decision → Decision
decided none d = d
decided (some d) _ = d

-- `_decide` without YOLO: denials by content, the gate of plan mode, then the rules.
unfoldable pub decide_guarded : Engine → Category → Text → Decision
decide_guarded e category target =
    decided (hard_deny e.auto_approve category target)
      (decided (plan_deny e.mode category target) (decide_by_rules e category target))

abbrev pub yolo_decision : Category → Text → Decision
yolo_decision category target =
    record (decision category target allow (codes "YOLO mode: all operations allowed")) {
      remember_pattern = codes "*";
    }

unfoldable pub decide_untooled : Engine → Category → Text → Decision
decide_untooled e category target =
    if e.yolo
    then yolo_decision category (normalize target)
    else decide_guarded e category (normalize target)

unfoldable pub decide : Engine → Category → Text → Text → Decision
unfolding decide_untooled
decide e category target tool = record (decide_untooled e category target) { tool = tool }
