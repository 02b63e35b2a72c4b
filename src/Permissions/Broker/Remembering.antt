-- ===== src/Permissions/Broker/Remembering.antt =====
-- The rule that `ApprovalBroker._ask` (approvals.py) adds, and later decisions.
use noah_code.Prelude.{
  Bool, true, false, ◌≡◌, ◌≢◌, ◌⊎◌, inl, inr, refl, sym, ap, arith, Option, none, some, List, [],
  ◌∷◌, ◌++◌, if◌then◌else◌, Bool-cases, ◌∙◌, ◌&&◌, subst, any-append,
}
use noah_code.Python.Text.{Text, codes, text_eq}
use noah_code.Python.Text.Laws.{text_eq_iff, text_eq_refl}
use noah_code.Permissions.Types.{
  Rule, Engine, Category, Decision, label, read, edit, bash, external_directory, task, skill, mcp,
  lsp, webfetch, websearch, question, github, allow, is_bash, is_allow,
}
use noah_code.Permissions.Engine.{
  match_rule, decide, add_session_rule, normalize, last_match, Found, session_allows,
  apply_elevated_floor, matching, decide_guarded, hard_deny, Verdict, decide_by_rules, plan_deny,
  concluded, decided, rules_verdict,
}
use noah_code.Permissions.Broker.{remembered_rule}
use noah_code.Python.Fnmatch.Literal.{IsLiteral, fnmatch-literal, fnmatch-star}
use noah_code.Python.Fnmatch.{fnmatch}

-- The category that a text names.
category_of : Text → Category
unfolding text_eq
category_of s =
    if text_eq s (codes "read")
    then read
    else if text_eq s (codes "edit")
    then edit
    else if text_eq s (codes "bash")
    then bash
    else if text_eq s (codes "external_directory")
    then external_directory
    else if text_eq s (codes "task")
    then task
    else if text_eq s (codes "skill")
    then skill
    else if text_eq s (codes "mcp")
    then mcp
    else if text_eq s (codes "lsp")
    then lsp
    else if text_eq s (codes "webfetch")
    then webfetch
    else if text_eq s (codes "websearch")
    then websearch
    else if text_eq s (codes "question")
    then question
    else github

category_of-label : (c : Category) → category_of (label c) ≡ c
unfolding category_of
category_of-label read = refl
category_of-label _ = refl

label-injective : (c d : Category) → text_eq (label c) (label d) ≡ true → c ≡ d
label-injective c d h =
    sym (category_of-label c)
    ∙ ap category_of ((text_eq_iff (label c) (label d)).0 h)
    ∙ category_of-label d

label-not_star : (c : Category) → text_eq (label c) (codes "*") ≡ false
unfolding text_eq
label-not_star read = refl
label-not_star _ = refl

-- A remembered rule with a literal pattern matches its own category and target, and no other.
match_remembered :
    (d : Decision) (c : Category) (t : Text)
    → IsLiteral d.remember_pattern
    → match_rule (remembered_rule d) c t ≡ true
    → (c ≡ d.category) × (t ≡ d.remember_pattern)
unfolding match_rule remembered_rule
match_remembered d c t lit h = ground (
  arith,
  label-not_star d.category,
  label-injective d.category c,
  fnmatch-literal d.remember_pattern t lit,
)

match_remembered_self :
    (d : Decision) (t : Text)
    → fnmatch t d.remember_pattern ≡ true
    → match_rule (remembered_rule d) d.category t ≡ true
unfolding match_rule remembered_rule
match_remembered_self d t h =
    ground (arith, label-not_star d.category, text_eq_refl (label d.category))

module _ (c : Category) (t : Text) (r : Rule) where
  last_match-append :
      (l : List Rule) (s : Bool) (f : Option Found)
      → last_match s f (l ++ r ∷ []) c t ≡ (
          if match_rule r c t
          then some (record { rule = r; from_session = s })
          else last_match s f l c t)
  unfolding last_match
  last_match-append [] s f = refl
  last_match-append (x ∷ l) s f = last_match-append l s _

session_allows-append :
    (e : Engine) (r : Rule) (c : Category) (t : Text)
    → is_bash c ≡ true
    → match_rule r c t ≡ false
    → session_allows (add_session_rule e r) t ≡ session_allows e t
unfolding session_allows add_session_rule
session_allows-append e r bash t b h =
    ground
      (arith, any-append (λ x. is_allow x.action && match_rule x bash t) e.session_rules (r ∷ []))
session_allows-append e r _ t b h = cc

apply_elevated_floor-cong :
    (e e' : Engine) (c : Category) (t : Text) (v : Verdict)
    → (is_bash c ≡ true → session_allows e' t ≡ session_allows e t)
    → apply_elevated_floor e' c t v ≡ apply_elevated_floor e c t v
unfolding apply_elevated_floor
apply_elevated_floor-cong e e' c t v h = elim (Bool-cases (is_bash c)) [
  | inl b ↦ rw (b, h b)
  | inr b ↦ rw b
]

matching-add_session_rule :
    (e : Engine) (r : Rule) (c : Category) (t : Text)
    → matching (add_session_rule e r) c t ≡ (
        if match_rule r c t
        then some (record { rule = r; from_session = true })
        else matching e c t)
unfolding matching add_session_rule
matching-add_session_rule e r c t = last_match-append c t r e.session_rules true _

decide_by_rules-frame :
    (e : Engine) (r : Rule) (c : Category) (t : Text)
    → match_rule r c t ≡ false
    → decide_by_rules (add_session_rule e r) c t ≡ decide_by_rules e c t
unfolding decide_by_rules add_session_rule
decide_by_rules-frame e r c t h =
    let same : matching (add_session_rule e r) c t ≡ matching e c t =
      matching-add_session_rule e r c t ∙ rw h in
    ap (concluded c t) (
      apply_elevated_floor-cong e (add_session_rule e r) c t _
        (λ b. session_allows-append e r c t b h)
      ∙ ap (λ f. apply_elevated_floor e c t (rules_verdict e.auto_approve f c t)) same)

decide_guarded-frame :
    (e : Engine) (r : Rule) (c : Category) (t : Text)
    → match_rule r c t ≡ false
    → decide_guarded (add_session_rule e r) c t ≡ decide_guarded e c t
unfolding decide_guarded add_session_rule
decide_guarded-frame e r c t h =
    ap (λ d. decided (hard_deny e.auto_approve c t) (decided (plan_deny e.mode c t) d))
      (decide_by_rules-frame e r c t h)

decide-frame :
    (e : Engine) (r : Rule) (c : Category) (target tool : Text)
    → match_rule r c (normalize target) ≡ false
    → decide (add_session_rule e r) c target tool ≡ decide e c target tool
unfolding decide add_session_rule
decide-frame e r c target tool h = ground (arith, decide_guarded-frame e r c (normalize target) h)

-- Remembering an approval of a target without glob characters changes no decision on any other
-- target, and none in any other category.
pub decide-remember_frame :
    (e : Engine) (d : Decision) (c : Category) (target tool : Text)
    → IsLiteral d.remember_pattern
    → (c ≢ d.category) ⊎ (normalize target ≢ d.remember_pattern)
    → decide (add_session_rule e (remembered_rule d)) c target tool ≡ decide e c target tool
decide-remember_frame e d c target tool lit other =
    elim (Bool-cases (match_rule (remembered_rule d) c (normalize target))) [
      | inl hit ↦ ground (arith, match_remembered d c (normalize target) lit hit)
      | inr miss ↦ decide-frame e (remembered_rule d) c target tool miss
    ]

session_allows-remembered :
    (e : Engine) (d : Decision) (t : Text)
    → d.category ≡ bash
    → match_rule (remembered_rule d) d.category t ≡ true
    → session_allows (add_session_rule e (remembered_rule d)) t ≡ true
unfolding session_allows add_session_rule
session_allows-remembered e d t b h =
    let hit : match_rule (remembered_rule d) bash t ≡ true =
      subst (λ c. match_rule (remembered_rule d) c t ≡ true) b h in
    unfold remembered_rule in
    ground (
      arith,
      hit,
      any-append (λ x. is_allow x.action && match_rule x bash t) e.session_rules
          (remembered_rule d ∷ []),
    )

remembered_floor :
    (e : Engine) (d : Decision) (c : Category) (t : Text) (v : Verdict)
    → d.category ≡ c
    → match_rule (remembered_rule d) d.category t ≡ true
    → v.action ≡ allow
    → (apply_elevated_floor (add_session_rule e (remembered_rule d)) c t v).action ≡ allow
unfolding apply_elevated_floor
remembered_floor e d bash t v b h a = ground (arith, session_allows-remembered e d t b h)
remembered_floor e d _ t v b h a = a

remembered_rules :
    (e : Engine) (d : Decision) (t : Text)
    → match_rule (remembered_rule d) d.category t ≡ true
    → (decide_by_rules (add_session_rule e (remembered_rule d)) d.category t).action ≡ allow
unfolding decide_by_rules
remembered_rules e d t h = remembered_floor e d d.category t _ refl h (
    rw (matching-add_session_rule e (remembered_rule d) d.category t, h)
      (unfold rules_verdict remembered_rule in ground arith))

-- A target that the remembered pattern matches is allowed from then on, also where it is of
-- elevated risk, unless it is denied by its content or by plan mode.
pub decide-remembered :
    (e : Engine) (d : Decision) (target tool : Text)
    → fnmatch (normalize target) d.remember_pattern ≡ true
    → hard_deny e.auto_approve d.category (normalize target) ≡ none
    → plan_deny e.mode d.category (normalize target) ≡ none
    → (decide (add_session_rule e (remembered_rule d)) d.category target tool).action ≡ allow
unfolding decide decide_guarded add_session_rule
decide-remembered e d target tool m hard plan =
    ground (
      arith,
      remembered_rules e d (normalize target) (match_remembered_self d (normalize target) m),
    )

-- The pattern that is remembered is read as a glob: where it is a text without glob characters
-- and then a star, every target that begins with the text is allowed from then on, unless it is
-- denied by its content or by plan mode.
pub decide-remembered_star :
    (e : Engine) (d : Decision) (p rest target tool : Text)
    → IsLiteral p
    → d.remember_pattern ≡ p ++ codes "*"
    → normalize target ≡ p ++ rest
    → hard_deny e.auto_approve d.category (normalize target) ≡ none
    → plan_deny e.mode d.category (normalize target) ≡ none
    → (decide (add_session_rule e (remembered_rule d)) d.category target tool).action ≡ allow
decide-remembered_star e d p rest target tool lit is_star begins =
    decide-remembered e d target tool (rw (is_star, begins) (fnmatch-star p rest lit))
