-- ===== src/Permissions/Engine/Commands.antt =====
-- The loop over the tokens in `_hard_bash_deny` (permissions.py) and the denials it finds.
use noah_code.Prelude.{
  ◌≡◌, ◌≢◌, true, false, Bool, none, some, arith, List, [], ◌∷◌, ◌++◌, ◌⊎◌, inl, inr, any-append,
  any, Bool-cases, subst, sym,
}
use noah_code.Python.Text.{Text, codes, texts, text_eq, member, lower}
use noah_code.Python.FilePath
use noah_code.Python.Shlex
use noah_code.Permissions.Types.{deny, bash, Engine}
use noah_code.Permissions.SecretTokens.{is_secret_shell_token}
use noah_code.Permissions.Engine.{hard_deny, decide, normalize, any}
use noah_code.Permissions.Gates.{
  deny_tokens, is_destructive_git, hard_bash_deny, or_else, refuse_if,
}
use noah_code.Permissions.Engine.Denials.{decide-denied_by_content}

-- The verbs that are denied behind git, wherever they stand.
abbrev pub destructive_verbs : List Text
destructive_verbs = texts ("push" ∷ "clean" ∷ "filter-branch" ∷ [])

is_destructive_git-append :
    (k : List Text) (v : Text) (l : List Text)
    → member v destructive_verbs ≡ true
    → is_destructive_git (k ++ v ∷ l) ≡ true
unfolding is_destructive_git
is_destructive_git-append k v l h =
    ground (arith, any-append (λ part. member part destructive_verbs) k (v ∷ l))

module _ (auto : Bool) (command : Text) where
  deny_tokens-secret :
      (tokens : List Text)
      → any is_secret_shell_token tokens ≡ true
      → deny_tokens auto command tokens ≢ none
  unfolding deny_tokens
  deny_tokens-secret [] h = ground (arith, h)
  deny_tokens-secret (t ∷ l) h = elim (Bool-cases (is_secret_shell_token t)) [
    | inl secret ↦ ground (arith, secret)
    | inr other ↦ ground (arith, other, deny_tokens-secret l (ground (arith, h, other)))
  ]

  deny_tokens-git :
      (k : List Text) (g : Text) (l : List Text)
      → text_eq (lower (FilePath.name g)) (codes "git") ≡ true
      → is_destructive_git l ≡ true
      → deny_tokens auto command (k ++ g ∷ l) ≢ none
  unfolding deny_tokens
  deny_tokens-git [] g l h d = ground arith
  deny_tokens-git (t ∷ k) g l h d = ground (arith, deny_tokens-git k g l h d)

  hard_bash_deny-tokens :
      (tokens : List Text)
      → Shlex.split command ≡ some tokens
      → deny_tokens auto command tokens ≢ none
      → hard_bash_deny auto command ≢ none
  unfolding hard_bash_deny or_else refuse_if
  hard_bash_deny-tokens tokens s d = ground arith

-- A command that shlex splits into tokens is denied by every engine without YOLO, whatever its mode,
-- its rules and what the session remembers, where there is git among the tokens and, somewhere behind
-- it, push, clean or filter-branch, or where any of the tokens names a secret.
pub decide-destructive_tokens :
    (e : Engine) (target tool : Text) (tokens k l m : List Text) (g v : Text)
    → e.yolo ≡ false
    → Shlex.split (normalize target) ≡ some tokens
    → (tokens ≡ k ++ g ∷ (l ++ v ∷ m))
        × (text_eq (lower (FilePath.name g)) (codes "git") ≡ true)
        × (member v destructive_verbs ≡ true)
      ⊎ (any is_secret_shell_token tokens ≡ true)
    → (decide e bash target tool).action ≡ deny
decide-destructive_tokens e target tool tokens k l m g v y s h =
    decide-denied_by_content e bash target tool e.rules e.session_rules y (
      inl (
        unfold hard_deny in
        hard_bash_deny-tokens e.auto_approve (normalize target) tokens s (refused h)))
  where
    refused :
        ((tokens ≡ k ++ g ∷ (l ++ v ∷ m))
            × (text_eq (lower (FilePath.name g)) (codes "git") ≡ true)
            × (member v destructive_verbs ≡ true)
          ⊎ (any is_secret_shell_token tokens ≡ true))
        → deny_tokens e.auto_approve (normalize target) tokens ≢ none
    refused (inl (parts, git, verb)) =
        subst (λ t. deny_tokens e.auto_approve (normalize target) t ≢ none) (sym parts)
          (deny_tokens-git e.auto_approve (normalize target) k g (l ++ v ∷ m) git
            (is_destructive_git-append l v m verb))
    refused (inr secret) = deny_tokens-secret e.auto_approve (normalize target) tokens secret
