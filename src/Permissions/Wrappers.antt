-- ===== src/Permissions/Wrappers.antt =====
-- The program that a command line runs, behind assignments and wrappers (permissions.py).
pub mod Termination
use noah_code.Prelude.{
  ℕ, zero, suc, ◌+◌, String, Bool, true, false, ◌&&◌, ◌||◌, not, Option, none, some, List, [], ◌∷◌,
  ◌++◌, ◌==◌, if◌then◌else◌, any, all, length,
}
use noah_code.Python.Text.{
  Text, codes, texts, text_eq, member, starts_with, has, lower, before, after?, is_digit, is_letter,
  is_word, size,
}
use noah_code.Python.FilePath
use noah_code.Python.Fnmatch.{fnmatch}
use noah_code.Python.Shlex
use noah_code.Python.Regex.{
  Regex, one, cat, alt, star, chr, plus, opt, lit, seq, alts, boundary, fullmatch, search_text,
}
use noah_code.Python.Text.{is_space}
use noah_code.Permissions.ReadOnly.{is_readonly_command}

unfoldable pub shell_assignment : Regex
shell_assignment = seq (
    one (λ c. is_letter c || c == b'_')
    ∷ star (one (λ c. is_word c))
    ∷ opt (chr b'+')
    ∷ chr b'='
    ∷ star (one (λ _. true))
    ∷ [])

unfoldable pub env_options_with_value : List Text
env_options_with_value = texts ("-u" ∷ "--unset" ∷ "-C" ∷ "--chdir" ∷ [])

unfoldable pub env_split_options : List Text
env_split_options = texts ("-S" ∷ "--split-string" ∷ [])

-- `name.removesuffix(".exe")`
unfoldable pub remove_exe : Text → Text
remove_exe [] = []
remove_exe (c ∷ s) = elim (text_eq (c ∷ s) (codes ".exe")) [ true ↦ [] | false ↦ c ∷ remove_exe s ]

unfoldable pub program_name : Text → Text
unfolding remove_exe
program_name token = remove_exe (lower (FilePath.name token))

unfoldable pub is_assignment : Text → Bool
unfolding shell_assignment
is_assignment token = fullmatch shell_assignment token

unfoldable pub skip_assignments : List Text → List Text
skip_assignments [] = []
skip_assignments (t ∷ l) = elim (is_assignment t) [ true ↦ skip_assignments l | false ↦ t ∷ l ]

-- What a wrapper does with the tokens behind it: the search goes on at a suffix, the tokens from
-- the wrapper on are the answer, or a text is split anew in front of what is left.
pub data Step : Type 0 where
  resume : List Text → Step
  query : Step
  respawn : Text → List Text → Step

unfoldable pub after_command : List Text → Step
after_command [] = resume []
after_command (option ∷ l) = elim (starts_with option (codes "-")) [
  | false ↦ resume (option ∷ l)
  | true ↦ elim (text_eq option (codes "-v") || text_eq option (codes "-V")) [
    | true ↦ query
    | false ↦ elim (text_eq option (codes "--")) [ true ↦ resume l | false ↦ after_command l ]
  ]
]

unfoldable pub after_builtin : List Text → Step
after_builtin [] = resume []
after_builtin (t ∷ l) =
    if text_eq t (codes "--")
    then resume l
    else if starts_with t (codes "-")
    then query
    else resume (t ∷ l)

-- Behind `env` and its options; nothing left means that `env` prints the environment.
abbrev or_query : List Text → Step
or_query [] = query
or_query (t ∷ l) = resume (t ∷ l)

-- `skip` says that the token is the value of the option before it.
unfoldable pub after_env : Bool → List Text → Step
after_env skip [] = query
after_env true (t ∷ l) = after_env false l
after_env false (t ∷ l) = elim (is_assignment t) [
  | true ↦ after_env false l
  | false ↦ elim (member (before b'=' t) env_split_options) [
    | true ↦ elim (after? b'=' t) [
      | some v ↦ respawn v l
      | none ↦ elim l [ [] ↦ query | v ∷ r ↦ respawn v r ]
    ]
    | false ↦ elim (member (before b'=' t) env_options_with_value && not (has b'=' t)) [
      | true ↦ after_env true l
      | false ↦ elim (text_eq t (codes "--")) [
        | true ↦ or_query l
        | false ↦ elim (starts_with t (codes "-")) [
          | true ↦ after_env false l
          | false ↦ resume (t ∷ l)
        ]
      ]
    ]
  ]
]

unfoldable pub unwrap : Text → List Text → Option Step
unwrap t l =
    let program = program_name t in
    if text_eq program (codes "command")
    then some (after_command l)
    else if text_eq program (codes "builtin")
    then some (after_builtin l)
    else if text_eq program (codes "env")
    then some (after_env false l)
    else none

-- Split tokens go on from their first word; a text that does not split leaves the wrapper.
unfoldable pub respawned :
    (List Text → List Text) → List Text → List Text → Option (List Text) → List Text
respawned continue whole remainder none = whole
respawned continue whole remainder (some w) = continue (skip_assignments (w ++ remainder))

unfoldable pub proceed : (List Text → List Text) → List Text → Option Step → List Text
unfolding respawned
proceed continue whole none = whole
proceed continue whole (some (resume r)) = continue r
proceed continue whole (some query) = whole
proceed continue whole (some (respawn v r)) = respawned continue whole r (Shlex.split v)

-- `_effective_shell_tokens` behind the assignments, on fuel.
unfoldable pub effective_within : ℕ → List Text → List Text
unfolding proceed
effective_within fuel [] = []
effective_within zero (t ∷ l) = t ∷ l
effective_within (suc fuel) (t ∷ l) = proceed (effective_within fuel) (t ∷ l) (unwrap t l)

unfoldable pub effective_shell_tokens : List Text → List Text
unfolding effective_within
effective_shell_tokens tokens = effective_within (size tokens) (skip_assignments tokens)
