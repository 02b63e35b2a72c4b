-- ===== src/Permissions/ReadOnly.antt =====
-- Which command lines count as read-only (permissions.py).
pub mod Termination
pub mod Trusted
use noah_code.Prelude.{
  ℕ, zero, suc, ◌+◌, Bool, true, false, ◌&&◌, ◌||◌, not, Option, none, some, List, [], ◌∷◌, leb,
  if◌then◌else◌, any, all, null, length,
}
use noah_code.Python.Text.{
  Text, codes, texts, text_eq, member, starts_with, has, lower, strip, before, first_word,
}
use noah_code.Python.FilePath
use noah_code.Python.Shlex
use noah_code.Python.Regex.{Regex, search_text, fullmatch}
use noah_code.Permissions.Policy.Patterns.{mutating_git, sed_print, Filter, read_only_filter_flags}
use noah_code.Permissions.Policy.Flags.{
  read_only_programs, rg_unsafe_long_flags, find_mutating_flags,
}
use noah_code.Permissions.Shell.{
  has_ambiguous_shell_expansion, is_redirecting, is_compound, split_pipeline, several,
}
use noah_code.Permissions.Git.{is_readonly_git}

-- `_READ_ONLY_FILTER_FLAGS.get(program)`
unfoldable pub flags_of : Text → List Filter → Option Regex
flags_of program [] = none
flags_of program (f ∷ l) = if text_eq program f.program then some f.flags else flags_of program l

unfoldable pub is_filter : Text → Bool
unfolding flags_of read_only_filter_flags
is_filter program = elim (flags_of program read_only_filter_flags) [ none ↦ false | some _ ↦ true ]

abbrev matches_flags : Option Regex → Text → Bool
matches_flags none arg = false
matches_flags (some r) arg = fullmatch r arg

-- The loop of `_is_readonly_filter`: the number of operands, or `none` for `return False`.
unfoldable pub count_operands : Text → Bool → ℕ → List Text → Option ℕ
unfolding flags_of read_only_filter_flags
count_operands program options operands [] = some operands
count_operands program options operands (arg ∷ args) = elim (options && text_eq arg (codes "--")) [
  | true ↦ count_operands program false operands args
  | false ↦ elim (options && starts_with arg (codes "-") && not (text_eq arg (codes "-"))) [
    | true ↦ elim (matches_flags (flags_of program read_only_filter_flags) arg) [
      | true ↦ count_operands program options operands args
      | false ↦ none
    ]
    | false ↦ count_operands program options (operands + 1) args
  ]
]

abbrev few_operands : Text → Option ℕ → Bool
few_operands program none = false
few_operands program (some n) = not (text_eq program (codes "uniq")) || leb n 1

abbrev sed_arguments : List Text → Option (List Text)
sed_arguments (n ∷ script ∷ args) =
    if text_eq n (codes "-n") && fullmatch sed_print script then some args else none
sed_arguments _ = none

unfoldable pub is_readonly_filter : Text → List Text → Bool
unfolding count_operands sed_print
is_readonly_filter program args =
    if text_eq program (codes "sed")
    then (elim (sed_arguments args) [
      | none ↦ false
      | some rest ↦ few_operands program (count_operands program true 0 rest)
    ])
    else few_operands program (count_operands program true 0 args)

unfoldable pub is_mutating_find_flag : Text → Bool
unfolding find_mutating_flags
is_mutating_find_flag token =
    let name = before b'=' token in
    member name find_mutating_flags
    || any (starts_with name) (texts ("-exec" ∷ "-ok" ∷ "-fprint" ∷ "-fprintf" ∷ []))

abbrev tail : Text → Text
tail [] = []
tail (c ∷ s) = s

unfoldable pub is_readonly_rg : List Text → Bool
unfolding rg_unsafe_long_flags
is_readonly_rg [] = true
is_readonly_rg (token ∷ l) =
    let lowered = lower token in
    elim (text_eq token (codes "--")) [
      | true ↦ true
      | false ↦
          not (member (before b'=' lowered) rg_unsafe_long_flags)
          && not (
              starts_with lowered (codes "-")
              && not (starts_with lowered (codes "--"))
              && has b'z' (tail lowered))
          && is_readonly_rg l
    ]

-- The tests on one program and its arguments that end `is_readonly_command`.
unfoldable pub is_readonly_program : Text → List Text → Bool
is_readonly_program program args =
    if text_eq program (codes "git")
    then is_readonly_git args
    else if text_eq program (codes "rg")
    then is_readonly_rg args
    else if text_eq program (codes "pwd")
    then null args
    else if text_eq program (codes "find")
    then not (any is_mutating_find_flag args)
    else if text_eq program (codes "sed") || is_filter program
    then is_readonly_filter program args
    else member program read_only_programs

abbrev readonly_tokens : Text → Option (List Text) → Bool
readonly_tokens cmd none = false
readonly_tokens cmd (some []) = true
readonly_tokens cmd (some (program ∷ args)) =
    text_eq (first_word cmd) program && is_readonly_program program args

-- A command with no unquoted pipe.
unfoldable pub is_readonly_simple : Text → Bool
is_readonly_simple cmd =
    not (is_redirecting cmd || is_compound cmd)
    && not (search_text mutating_git (lower cmd))
    && readonly_tokens cmd (Shlex.split cmd)

-- The body of `is_readonly_command` on the stripped command; the argument is the call on the segments.
unfoldable pub readonly_body : (List Text → Bool) → Text → Bool
readonly_body segments_readonly cmd =
    if null cmd
    then true
    else if has_ambiguous_shell_expansion cmd
    then false
    else (elim (several (split_pipeline cmd)) [
      | true ↦ segments_readonly (split_pipeline cmd)
      | false ↦ is_readonly_simple cmd
    ])

-- `is_readonly_command` calls itself on the segments of a pipeline, which are shorter than it.
unfoldable pub readonly_within : ℕ → Text → Bool
unfolding readonly_body
readonly_within zero command = false
readonly_within (suc fuel) command = readonly_body (all (readonly_within fuel)) (strip command)

unfoldable pub is_readonly_command : Text → Bool
unfolding readonly_within
is_readonly_command command = readonly_within (suc (length command)) command

abbrev runs_shell_text : Option (List Text) → Bool
runs_shell_text none = true
runs_shell_text (some []) = false
runs_shell_text (some (program ∷ args)) =
    member (lower (FilePath.name program)) (texts ("sh" ∷ "bash" ∷ "zsh" ∷ "ksh" ∷ "dash" ∷ []))
    && any (λ token. member token (texts ("-c" ∷ "-lc" ∷ []))) args

unfoldable pub is_uncertain_shell : Text → Bool
unfolding is_readonly_command
is_uncertain_shell command =
    if has_ambiguous_shell_expansion command || is_redirecting command
    then true
    else if several (split_pipeline command)
    then not (all is_readonly_command (split_pipeline command))
    else if is_compound command
    then true
    else runs_shell_text (Shlex.split command)
