-- ===== src/Permissions/Engine/Denials.antt =====
-- The denials of `_decide` and `_hard_bash_deny` (permissions.py), and their order.
use noah_code.Prelude.{
  String, Bool, true, false, ◌&&◌, Option, none, some, List, [], ◌∷◌, ◌≡◌, ◌≢◌, refl, arith, ◌⊎◌,
  inl, inr,
}
use noah_code.Python.Text.{Text}
use noah_code.Permissions.Types.{Mode, build, plan, deny, Decision, Engine, Category, Rule, Mode}
use noah_code.Permissions.Engine.{decide, hard_deny, normalize, plan_deny, decided, decide_guarded}
use noah_code.Permissions.Gates.{refuse_if, or_else, deny_tokens, hard_bash_deny, plan_mode_gate}

-- An optional decision denies, where there is one.
pub record Denies (o : Option Decision) : Type 0 where
  pub at : (d : Decision) → o ≡ some d → d.action ≡ deny

-- Wherever the first decision is there, so is the second.
pub record Within (a b : Option Decision) : Type 0 where
  pub at : a ≢ none → b ≢ none

or_else-Denies : {a b : Option Decision} → Denies a → Denies b → Denies (or_else a b)
unfolding or_else
or_else-Denies {a = none} h k = k
or_else-Denies {a = some d} h k = h

or_else-Within :
    {a b c d : Option Decision} → Within a b → Within c d → Within (or_else a c) (or_else b d)
unfolding or_else
or_else-Within {a = none} {b = none} h k = k
or_else-Within {a = none} {b = some y} h k = record { at = λ _ e. cc }
or_else-Within {a = some x} {b = none} h k = record { at = λ _ _. h.at (λ e. cc) refl }
or_else-Within {a = some x} {b = some y} h k = record { at = λ _ e. cc }

refuse_if-Denies :
    (b : Bool) (command : Text) (reason : String) → Denies (refuse_if b command reason)
unfolding refuse_if
refuse_if-Denies true command reason = record { at = λ d e. ground arith }
refuse_if-Denies false command reason = record { at = λ d e. cc }

pub Within-refl : {a : Option Decision} → Within a a
Within-refl = record { at = λ h. h }

refuse_if-Within :
    (b : Bool) (command : Text) (reason : String)
    → Within (refuse_if (false && b) command reason) (refuse_if (true && b) command reason)
unfolding refuse_if
refuse_if-Within b command reason = record { at = λ h. absurd (h refl) }

deny_tokens-eq-deny :
    (auto : Bool) (command : Text) (l : List Text) (d : Decision)
    → deny_tokens auto command l ≡ some d
    → d.action ≡ deny
unfolding deny_tokens
deny_tokens-eq-deny auto command [] d e = cc
deny_tokens-eq-deny auto command (t ∷ l) d e = ground (arith, deny_tokens-eq-deny auto command l d)

deny_tokens-Denies :
    (auto : Bool) (command : Text) (l : List Text) → Denies (deny_tokens auto command l)
deny_tokens-Denies auto command l = record { at = deny_tokens-eq-deny auto command l }

deny_tokens-ne-none :
    (command : Text) (l : List Text)
    → deny_tokens false command l ≢ none
    → deny_tokens true command l ≢ none
unfolding deny_tokens
deny_tokens-ne-none command [] h = h
deny_tokens-ne-none command (t ∷ l) h = ground (arith, deny_tokens-ne-none command l)

deny_tokens-Within :
    (command : Text) (l : List Text)
    → Within (deny_tokens false command l) (deny_tokens true command l)
deny_tokens-Within command l = record { at = deny_tokens-ne-none command l }

pub hard_bash_deny-Denies : (auto : Bool) (command : Text) → Denies (hard_bash_deny auto command)
unfolding hard_bash_deny
hard_bash_deny-Denies auto command =
    search (or_else-Denies, refuse_if-Denies, deny_tokens-Denies) depth 10

pub hard_bash_deny-Within :
    (command : Text) → Within (hard_bash_deny false command) (hard_bash_deny true command)
unfolding hard_bash_deny
hard_bash_deny-Within command =
    search (or_else-Within, refuse_if-Within, Within-refl, deny_tokens-Within) depth 10

pub hard_deny-Denies : (auto : Bool) (c : Category) (t : Text) → Denies (hard_deny auto c t)
unfolding hard_deny
hard_deny-Denies auto c t = record {
  at = λ d e. ground (arith, (hard_bash_deny-Denies auto t).at d);
}

pub plan_deny-Denies : (m : Mode) (c : Category) (t : Text) → Denies (plan_deny m c t)
unfolding plan_deny plan_mode_gate
plan_deny-Denies build c t = record { at = λ d e. cc }
plan_deny-Denies plan c t = record { at = λ d e. ground arith }

pub hard_deny-Within : (c : Category) (t : Text) → Within (hard_deny false c t) (hard_deny true c t)
unfolding hard_deny
hard_deny-Within c t = record { at = ground (arith, (hard_bash_deny-Within t).at) }

denied :
    (a b : Option Decision)
    → Denies a
    → Denies b
    → (a ≢ none) ⊎ (b ≢ none)
    → (d : Decision) → (decided a (decided b d)).action ≡ deny
denied none none ha hb (inl k) d = absurd (k refl)
denied none none ha hb (inr k) d = absurd (k refl)
denied none (some y) ha hb k d = hb.at y refl
denied (some x) b ha hb k d = ha.at x refl

-- Without YOLO the decision is that of the three layers, with the tool's name put in.
pub decide-guarded :
    (e : Engine) (c : Category) (target tool : Text)
    → e.yolo ≡ false
    → decide e c target tool ≡ record (decide_guarded e c (normalize target)) { tool = tool }
unfolding decide
decide-guarded e c target tool y = ground arith

-- Every denial that rests on the content of the target, hard or of plan mode, holds whatever the
-- rules and the session's rules say, unless YOLO is on.
pub decide-denied_by_content :
    (e : Engine) (c : Category) (target tool : Text) (rules session_rules : List Rule)
    → e.yolo ≡ false
    → (hard_deny e.auto_approve c (normalize target) ≢ none)
      ⊎ (plan_deny e.mode c (normalize target) ≢ none)
    → (decide (record e { rules = rules; session_rules = session_rules }) c target tool).action
      ≡ deny
unfolding decide_guarded
decide-denied_by_content e c target tool rules session_rules y h =
    rw (decide-guarded (record e { rules = rules; session_rules = session_rules }) c target tool y)
      (denied _ _ (hard_deny-Denies e.auto_approve c _) (plan_deny-Denies e.mode c _) h _)
