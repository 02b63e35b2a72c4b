-- ===== src/Permissions/Examples.antt =====
-- The theorems on the engine's decisions, applied to concrete engines, commands and decisions.
use noah_code.Python.Shlex
use noah_code.Python.FilePath
use noah_code.Permissions.Defaults.{default_permission_rules}
use noah_code.Permissions.Tests.{program, engine}
use noah_code.Prelude.{
  List, String, true, [], false, ◌≡◌, ◌∷◌, ◌⊎◌, inl, inr, refl, ◌≢◌, ◌++◌, none, some,
}
use noah_code.Permissions.Types.{Engine, Rule, bash, edit, Decision, allow, plan, deny, ask}
use noah_code.Permissions.Engine.{
  decide, session_allows, normalize, add_session_rule, matching, hard_deny, plan_deny,
}
use noah_code.Permissions.Gates.{is_elevated}
use noah_code.Permissions.Engine.LastMatch.{IsMatching, matching-IsMatching}
use noah_code.Permissions.ReadOnly.{is_readonly_command}
use noah_code.Python.Text.{member, codes, texts, text_eq, lower, Text}
use noah_code.Permissions.Engine.Approvals.{
  with_auto, decide-auto_asks, decide-auto_keeps_denials, decide-plan, decide-allow_not_elevated,
}
use noah_code.Permissions.External.{command_has_external_path}
use noah_code.Permissions.Broker.{remembered_rule}
use noah_code.Permissions.Engine.Denials.{decide-denied_by_content}
use noah_code.Permissions.Engine.Commands.{decide-destructive_tokens, destructive_verbs}
use noah_code.Permissions.Git.{git_unscoped_patch_output}
use noah_code.Permissions.Broker.Remembering.{
  decide-remember_frame, decide-remembered, decide-remembered_star,
}
use noah_code.Permissions.Defaults.Unattended.{decide-default_bash}
use noah_code.Permissions.Defaults.{default_engine}
use noah_code.Python.Fnmatch.Literal.{IsLiteral}
use noah_code.Python.Fnmatch.{fnmatch}
use noah_code.Permissions.SessionRules.{
  load_session_rules, snapshot_session_rules, load-snapshot_session_rules,
}

abbrev allow_all : List Rule
allow_all = record { category = codes "*"; pattern = codes "*"; action = allow; reason = [] } ∷ []

abbrev loose : Engine
loose = record (engine true) { rules = allow_all; session_rules = allow_all }

rm_refused : hard_deny true bash (normalize (codes "rm -rf /")) ≢ none
unfolding program
rm_refused h = cc

decide-denied_by_content_example : (decide loose bash (codes "rm -rf /") []).action ≡ deny
decide-denied_by_content_example =
    decide-denied_by_content (engine true) bash (codes "rm -rf /") [] allow_all allow_all refl
      (inl rm_refused)

abbrev git_tokens : List Text
git_tokens = codes "git" ∷ (texts ("-C" ∷ "x" ∷ []) ++ codes "push" ∷ [])

push_tokens : Shlex.split (normalize (codes "git -C x 'push'")) ≡ some git_tokens
unfolding program
push_tokens = refl

git_named : text_eq (lower (FilePath.name (codes "git"))) (codes "git") ≡ true
unfolding program
git_named = refl

push_destructive : member (codes "push") destructive_verbs ≡ true
unfolding program
push_destructive = refl

decide-destructive_tokens_example : (decide loose bash (codes "git -C x 'push'") []).action ≡ deny
decide-destructive_tokens_example =
    decide-destructive_tokens loose (codes "git -C x 'push'") [] git_tokens []
      (texts ("-C" ∷ "x" ∷ [])) [] (codes "git") (codes "push") refl push_tokens
      (inl (refl, git_named, push_destructive))

-- A secret as the last token.
secret_last : (decide loose bash (codes "cat .env") []).action ≡ deny
unfolding program
secret_last = refl

auto_push : (decide (with_auto loose false) bash (codes "git push") []).action ≡ deny
unfolding program
auto_push = refl

decide-auto_keeps_denials_example :
    (decide (with_auto loose true) bash (codes "git push") []).action ≡ deny
decide-auto_keeps_denials_example =
    decide-auto_keeps_denials loose bash (codes "git push") [] auto_push

auto_rm : (decide (with_auto (engine true) true) bash (codes "rm notes.txt") []).action ≡ ask
unfolding program
auto_rm = refl

nothing_else_asks :
    (decide (with_auto (engine true) true) bash (codes "rm notes.txt") []).elevated_floor ≡ true
nothing_else_asks = decide-auto_asks (engine true) bash (codes "rm notes.txt") [] auto_rm

tested : (decide (engine true) bash (codes "cargo test") []).action ≡ allow
unfolding program
tested = refl

decide-allow_not_elevated_example :
    (session_allows (engine true) (normalize (codes "cargo test")) ≡ true)
    ⊎ (is_elevated (normalize (codes "cargo test")) ≡ false)
decide-allow_not_elevated_example =
    decide-allow_not_elevated (engine true) (codes "cargo test") [] refl tested

abbrev planning : Engine
planning = record (engine true) { mode = plan }

decide-plan_example :
    ((decide planning edit (codes "ls src") []).action ≡ deny)
    × (((decide planning bash (codes "ls src") []).action ≡ deny)
        ⊎ ((is_readonly_command (normalize (codes "ls src")) ≡ true)
            × (command_has_external_path (normalize (codes "ls src")) ≡ false)))
decide-plan_example = decide-plan planning (codes "ls src") [] refl refl

matching-IsMatching_example : IsMatching loose bash (codes "ls") (matching loose bash (codes "ls"))
matching-IsMatching_example = matching-IsMatching loose bash (codes "ls")

listed : (decide default_engine bash (codes "ls src") []).action ≡ allow
unfolding program default_permission_rules
listed = refl

decide-default_bash_example :
    (is_readonly_command (normalize (codes "ls src")) ≡ true)
    × (command_has_external_path (normalize (codes "ls src")) ≡ false)
    × (git_unscoped_patch_output (normalize (codes "ls src")) ≡ false)
decide-default_bash_example = decide-default_bash (codes "ls src") [] listed

abbrev approved : String → Decision
approved target = decide (engine false) bash (codes target) []

plain : IsLiteral (approved "cargo test").remember_pattern
unfolding program
plain = (refl, (refl, (refl, (refl, (refl, (refl, (refl, (refl, (refl, (refl, tt))))))))))

make_differs : normalize (codes "make") ≢ (approved "cargo test").remember_pattern
unfolding program
make_differs h = cc

decide-remember_frame_example :
    decide
      (add_session_rule (engine false) (remembered_rule (approved "cargo test")))
      bash
      (codes "make")
      []
    ≡ decide (engine false) bash (codes "make") []
decide-remember_frame_example =
    decide-remember_frame (engine false) (approved "cargo test") bash (codes "make") [] plain
      (inr make_differs)

test_matches :
    fnmatch (normalize (codes "cargo test")) (approved "cargo test").remember_pattern ≡ true
unfolding program
test_matches = refl

test_not_hard :
    hard_deny false (approved "cargo test").category (normalize (codes "cargo test")) ≡ none
unfolding program
test_not_hard = refl

allows_remembered :
    (decide
      (add_session_rule (engine false) (remembered_rule (approved "cargo test")))
      (approved "cargo test").category
      (codes "cargo test")
      []).action
    ≡ allow
unfolding plan_deny
allows_remembered =
    decide-remembered (engine false) (approved "cargo test") (codes "cargo test") [] test_matches
      test_not_hard refl

rm_star : (approved "rm *").remember_pattern ≡ codes "rm " ++ codes "*"
unfolding program
rm_star = refl

rm_other : normalize (codes "rm notes.txt") ≡ codes "rm " ++ codes "notes.txt"
unfolding program
rm_other = refl

rm_not_hard : hard_deny false (approved "rm *").category (normalize (codes "rm notes.txt")) ≡ none
unfolding program
rm_not_hard = refl

decide-remembered_star_example :
    (decide
      (add_session_rule (engine false) (remembered_rule (approved "rm *")))
      (approved "rm *").category
      (codes "rm notes.txt")
      []).action
    ≡ allow
unfolding plan_deny
decide-remembered_star_example =
    decide-remembered_star (engine false) (approved "rm *") (codes "rm ") (codes "notes.txt")
      (codes "rm notes.txt") [] (refl, (refl, (refl, tt))) rm_star rm_other rm_not_hard refl

loads_saved_rules :
    load_session_rules Rule
      (λ r. r)
      some
      (engine true)
      (snapshot_session_rules Rule
        (λ r. r)
        some
        (record (engine true) { session_rules = allow_all }))
    ≡ some (record (engine true) { session_rules = allow_all })
loads_saved_rules =
    load-snapshot_session_rules Rule (λ r. r) some (λ r. refl)
      (record (engine true) { session_rules = allow_all }) []
