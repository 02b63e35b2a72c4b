-- ===== src/Permissions/Engine/Approvals.antt =====
-- What auto-approval, plan mode and the elevated-risk floor do to the decisions of `_decide`.
use noah_code.Prelude.{◌≡◌, ◌≢◌, ◌⊎◌, inl, inr, refl, arith, Bool, true, false, Option, none, some}
use noah_code.Python.Text.{Text}
use noah_code.Permissions.Types.{
  plan, Engine, Category, bash, edit, Decision, allow, ask, deny, Action,
}
use noah_code.Permissions.Engine.{
  decide, decide_by_rules, normalize, auto_approved, Verdict, apply_elevated_floor, session_allows,
  decided, plan_deny, decide_guarded, bump_read_only, matching, verdict_of, Action,
}
use noah_code.Permissions.Gates.{is_elevated, plan_mode_gate}
use noah_code.Permissions.Engine.Denials.{
  Denies, Within, hard_deny-Denies, hard_deny-Within, plan_deny-Denies, Within-refl, decide-guarded,
}
use noah_code.Permissions.ReadOnly.{is_readonly_command}
use noah_code.Permissions.External.{command_has_external_path}

abbrev pub with_auto : Engine → Bool → Engine
with_auto e b = record e { auto_approve = b }

module _ (e : Engine) (c : Category) (t : Text) where
  floored_deny :
      (v : Verdict)
      → (apply_elevated_floor e c t (auto_approved false v)).action ≡ deny
      → v.action ≡ deny
  unfolding apply_elevated_floor auto_approved
  floored_deny v = ground arith

  deny_floored :
      (v : Verdict)
      → v.action ≡ deny
      → (apply_elevated_floor e c t (auto_approved true v)).action ≡ deny
  unfolding apply_elevated_floor auto_approved
  deny_floored v = ground arith

  ask_floored :
      (v : Verdict)
      → (apply_elevated_floor e c t (auto_approved true v)).action ≡ ask
      → (apply_elevated_floor e c t (auto_approved true v)).elevated ≡ true
  unfolding apply_elevated_floor auto_approved
  ask_floored v = ground arith

  decide_by_rules-auto :
      (decide_by_rules (with_auto e false) c t).action ≡ deny
      → (decide_by_rules (with_auto e true) c t).action ≡ deny
  unfolding decide_by_rules session_allows
  decide_by_rules-auto h = deny_floored _ (floored_deny _ h)

decide_by_rules-asks :
    (e : Engine) (c : Category) (t : Text)
    → (decide_by_rules (with_auto e true) c t).action ≡ ask
    → (decide_by_rules (with_auto e true) c t).elevated_floor ≡ true
unfolding decide_by_rules
decide_by_rules-asks e c t = ask_floored (with_auto e true) c t _

allow_floored :
    (e : Engine) (t : Text) (v : Verdict)
    → (apply_elevated_floor e bash t v).action ≡ allow
    → (session_allows e t ≡ true) ⊎ (is_elevated t ≡ false)
unfolding apply_elevated_floor
allow_floored e t v = ground arith

decide_by_rules-allow :
    (e : Engine) (t : Text)
    → (decide_by_rules e bash t).action ≡ allow
    → (session_allows e t ≡ true) ⊎ (is_elevated t ≡ false)
unfolding decide_by_rules
decide_by_rules-allow e t = allow_floored e t (
    auto_approved e.auto_approve
      (bump_read_only (matching e bash t) bash t (verdict_of (matching e bash t))))

plan_edit : (t : Text) → plan_mode_gate edit t ≢ none
unfolding plan_mode_gate
plan_edit t e = cc

plan_gate :
    (t : Text)
    → plan_mode_gate bash t ≡ none
    → (is_readonly_command t ≡ true) × (command_has_external_path t ≡ false)
unfolding plan_mode_gate
plan_gate t = ground arith

-- The three layers of `_decide`: denials by content, denials by plan mode, the rules.
pub decided_mono :
    {a b : Option Decision} (x y : Decision)
    → Denies a
    → Denies b
    → Within a b
    → (x.action ≡ deny → y.action ≡ deny)
    → (decided a x).action ≡ deny
    → (decided b y).action ≡ deny
decided_mono {a = none} {b = none} x y ha hb w k h = k h
decided_mono {a = none} {b = some d} x y ha hb w k h = hb.at d refl
decided_mono {a = some d} {b = none} x y ha hb w k h = absurd (w.at (λ e. cc) refl)
decided_mono {a = some d} {b = some d'} x y ha hb w k h = hb.at d' refl

module _ (e : Engine) (c : Category) (t : Text) where
  decide_guarded-auto :
      (decide_guarded (with_auto e false) c t).action ≡ deny
      → (decide_guarded (with_auto e true) c t).action ≡ deny
  unfolding decide_guarded
  decide_guarded-auto =
      decided_mono _ _ (hard_deny-Denies false c t) (hard_deny-Denies true c t)
        (hard_deny-Within c t)
        (decided_mono _ _ (plan_deny-Denies e.mode c t) (plan_deny-Denies e.mode c t) Within-refl
          (decide_by_rules-auto e c t))

  -- A decision that does not deny comes from the rules.
  pub decide_guarded-rules :
      (decide_guarded e c t).action ≢ deny
      → (decide_guarded e c t ≡ decide_by_rules e c t) × (plan_deny e.mode c t ≡ none)
  unfolding decide_guarded
  decide_guarded-rules h =
      from_rules _ _ (hard_deny-Denies e.auto_approve c t) (plan_deny-Denies e.mode c t) h
    where
      from_rules :
          (a b : Option Decision)
          → Denies a
          → Denies b
          → (decided a (decided b (decide_by_rules e c t))).action ≢ deny
          → (decided a (decided b (decide_by_rules e c t)) ≡ decide_by_rules e c t) × (b ≡ none)
      from_rules none none ha hb k = (refl, refl)
      from_rules none (some d) ha hb k = absurd (k (hb.at d refl))
      from_rules (some d) b ha hb k = absurd (k (ha.at d refl))

-- Auto-approval never turns a denial into anything else: what is denied without it is denied with it.
pub decide-auto_keeps_denials :
    (e : Engine) (c : Category) (target tool : Text)
    → (decide (with_auto e false) c target tool).action ≡ deny
    → (decide (with_auto e true) c target tool).action ≡ deny
unfolding decide
decide-auto_keeps_denials e c target tool h =
    ground (arith, decide_guarded-auto e c (normalize target))

-- Under auto-approval nothing is left to ask but what the elevated-risk floor holds back.
pub decide-auto_asks :
    (e : Engine) (c : Category) (target tool : Text)
    → (decide (with_auto e true) c target tool).action ≡ ask
    → (decide (with_auto e true) c target tool).elevated_floor ≡ true
unfolding decide
decide-auto_asks e c target tool h = ground (
  arith,
  decide_guarded-rules (with_auto e true) c (normalize target),
  decide_by_rules-asks e c (normalize target),
)

-- A shell command that is allowed, YOLO aside, is one that a session rule allows, or one that is
-- not of elevated risk.
pub decide-allow_not_elevated :
    (e : Engine) (target tool : Text)
    → e.yolo ≡ false
    → (decide e bash target tool).action ≡ allow
    → (session_allows e (normalize target) ≡ true) ⊎ (is_elevated (normalize target) ≡ false)
decide-allow_not_elevated e target tool y h = ground (
  arith,
  decide-guarded e bash target tool y,
  decide_guarded-rules e bash (normalize target),
  decide_by_rules-allow e (normalize target),
)

Action-cases : (a : Action) → (a ≡ deny) ⊎ (a ≢ deny)
Action-cases allow = inr (λ h. cc)
Action-cases ask = inr (λ h. cc)
Action-cases deny = inl refl

-- In plan mode without YOLO every edit is denied, and a shell command is denied or it is read-only and
-- names no path outside the workspace.
pub decide-plan :
    (e : Engine) (target tool : Text)
    → e.yolo ≡ false
    → e.mode ≡ plan
    → ((decide e edit target tool).action ≡ deny)
      × (((decide e bash target tool).action ≡ deny)
          ⊎ ((is_readonly_command (normalize target) ≡ true)
              × (command_has_external_path (normalize target) ≡ false)))
unfolding plan_deny
decide-plan e target tool y m = (
  ground (
    arith,
    decide-guarded e edit target tool y,
    decide_guarded-rules e edit (normalize target),
    plan_edit (normalize target),
  ),
  elim (Action-cases (decide e bash target tool).action) [
    | inl denied ↦ inl denied
    | inr other ↦ inr (
        plan_gate (normalize target) (
          ground (
            arith,
            decide-guarded e bash target tool y,
            decide_guarded-rules e bash (normalize target),
          )))
  ],
)
