-- ===== src/Permissions/Defaults/Unattended.antt =====
-- Shell commands under the default rules (config.py).
use noah_code.Prelude.{◌≡◌, refl, true, false, Bool, Option, none, some, arith}
use noah_code.Python.Text.{Text, text_eq}
use noah_code.Permissions.Types.{allow, bash, is_allow, Engine}
use noah_code.Permissions.Engine.{
  matching, match_rule, last_match, Found, decide, normalize, rules_verdict, apply_elevated_floor,
  decide_by_rules, elevated_bash_ask, Verdict,
}
use noah_code.Permissions.Defaults.{default_engine, default_permission_rules, Engine}
use noah_code.Permissions.ReadOnly.{is_readonly_command}
use noah_code.Permissions.External.{command_has_external_path}
use noah_code.Permissions.Git.{git_unscoped_patch_output}
use noah_code.Permissions.Engine.Denials.{decide-guarded}
use noah_code.Permissions.Engine.Approvals.{decide_guarded-rules}

-- The rules for shell commands ask or deny.
abbrev allows : Option Found → Bool
allows none = false
allows (some f) = is_allow f.rule.action

matching-default : (t : Text) → allows (matching default_engine bash t) ≡ false
unfolding matching match_rule last_match default_permission_rules text_eq
matching-default t = ground arith

allowed_by_bump :
    (o : Option Found) (t : Text)
    → allows o ≡ false
    → (rules_verdict false o bash t).action ≡ allow
    → (is_readonly_command t ≡ true)
      × (command_has_external_path t ≡ false)
      × (git_unscoped_patch_output t ≡ false)
unfolding rules_verdict
allowed_by_bump o t h k = ground arith

allowed_before_floor :
    (e : Engine) (t : Text) (v : Verdict)
    → (apply_elevated_floor e bash t v).action ≡ allow
    → v.action ≡ allow
unfolding apply_elevated_floor elevated_bash_ask
allowed_before_floor e t v h = ground arith

-- With an engine that has the default rules and is in build mode, without auto-approval, without YOLO
-- and with nothing remembered, a shell command that runs unasked is read-only, names no path outside
-- the workspace and dumps no unscoped patch.
pub decide-default_bash :
    (target tool : Text)
    → (decide default_engine bash target tool).action ≡ allow
    → (is_readonly_command (normalize target) ≡ true)
      × (command_has_external_path (normalize target) ≡ false)
      × (git_unscoped_patch_output (normalize target) ≡ false)
unfolding decide_by_rules
decide-default_bash target tool h =
    allowed_by_bump (matching default_engine bash (normalize target)) (normalize target)
      (matching-default (normalize target))
      (allowed_before_floor default_engine (normalize target)
        (rules_verdict false (matching default_engine bash (normalize target)) bash
          (normalize target))
        (ground (
          arith,
          decide-guarded default_engine bash target tool refl,
          decide_guarded-rules default_engine bash (normalize target),
        )))
