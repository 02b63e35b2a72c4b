-- ===== src/Permissions/Interpreters.antt =====
-- The programs that auto-approval refuses to run: interpreters, indirect execution, and dumps of
-- the environment (permissions.py).
use noah_code.Prelude.{
  String, Bool, true, false, ◌&&◌, ◌||◌, not, Option, none, some, List, [], ◌∷◌, if◌then◌else◌, any,
  all,
}
use noah_code.Python.Text.{Text, codes, texts, text_eq, member, starts_with, lower, is_digit}
use noah_code.Python.Fnmatch.{fnmatch}
use noah_code.Python.Shlex
use noah_code.Python.Regex.{
  Regex, one, cat, alt, star, chr, plus, opt, lit, seq, alts, boundary, fullmatch, search_text,
}
use noah_code.Python.Text.{is_space}
use noah_code.Permissions.ReadOnly.{is_readonly_command}
use noah_code.Permissions.Wrappers.{program_name, effective_shell_tokens}

unfoldable pub env_dump_programs : List Text
env_dump_programs = texts ("set" ∷ "declare" ∷ "local" ∷ "typeset" ∷ "readonly" ∷ "export" ∷ [])

unfoldable pub auto_env_interpreters : List Text
auto_env_interpreters = texts ("python" ∷ "python3" ∷ "node" ∷ "perl" ∷ "ruby" ∷ "php" ∷ [])

abbrev digits : Regex
digits = plus (one (λ c. is_digit c))

unfoldable pub auto_interpreter_name : Regex
auto_interpreter_name = alts (
    seq (
      alt (cat (lit "python") (opt (chr b'w'))) (lit "pypy")
      ∷ opt (cat digits (star (cat (chr b'.') digits)))
      ∷ opt (chr b't')
      ∷ [])
    ∷ cat (lit "node") (opt (lit "js"))
    ∷ lit "perl"
    ∷ lit "ruby"
    ∷ lit "php"
    ∷ cat (opt (alts (lit "ba" ∷ lit "z" ∷ lit "k" ∷ lit "da" ∷ []))) (lit "sh")
    ∷ [])

unfoldable pub inert_interpreter_flags : List Text
inert_interpreter_flags = texts ("-v" ∷ "-V" ∷ "-VV" ∷ "--version" ∷ [])

unfoldable pub auto_indirect_executors : List Text
auto_indirect_executors =
    texts ("exec" ∷ "nohup" ∷ "nice" ∷ "timeout" ∷ "gtimeout" ∷ "time" ∷ "xargs" ∷ [])

-- `len(remaining) == 1 and remaining[0] in _INERT_INTERPRETER_FLAGS`
abbrev is_inert : List Text → Bool
is_inert (flag ∷ []) = member flag inert_interpreter_flags
is_inert _ = false

unfoldable pub is_interpreter : Text → Bool
unfolding auto_interpreter_name
is_interpreter program = fullmatch auto_interpreter_name program

-- The loop over the arguments of `uv run`.
unfoldable pub runs_interpreter : List Text → Bool
unfolding is_interpreter inert_interpreter_flags
runs_interpreter [] = false
runs_interpreter (t ∷ l) = elim (is_interpreter (program_name t)) [
  | true ↦ not (is_inert l)
  | false ↦ runs_interpreter l
]

-- `effective[effective.index("run", 1) + 1 :]`, where `run` is among the arguments
unfoldable pub behind_run : List Text → Option (List Text)
behind_run [] = none
behind_run (t ∷ l) = elim (text_eq t (codes "run")) [ true ↦ some l | false ↦ behind_run l ]

abbrev uv_runs : Option (List Text) → Bool
uv_runs none = false
uv_runs (some args) =
    any (λ a. member a (texts ("-m" ∷ "--module" ∷ "-s" ∷ "--script" ∷ "--gui-script" ∷ []))) args
    || runs_interpreter args

-- `_contains_executing_interpreter` for the tokens in command position.
unfoldable pub executes_interpreter : List Text → Bool
unfolding runs_interpreter behind_run auto_indirect_executors
executes_interpreter [] = false
executes_interpreter (first ∷ args) =
    let program = program_name first in
    if text_eq first (codes ".") || member program (texts ("eval" ∷ "source" ∷ []))
    then true
    else if member program auto_indirect_executors
    then true
    else if member program (texts ("sed" ∷ "awk" ∷ "gawk" ∷ "mawk" ∷ "nawk" ∷ []))
    then not (is_readonly_command (Shlex.join_tokens (first ∷ args)))
    else if is_interpreter program
    then not (is_inert args)
    else text_eq program (codes "uv") && uv_runs (behind_run args)

unfoldable pub contains_executing_interpreter : List Text → Bool
unfolding effective_shell_tokens executes_interpreter
contains_executing_interpreter tokens = executes_interpreter (effective_shell_tokens tokens)

abbrev spaces? : Regex
spaces? = star (one is_space)

abbrev dotted : String → String → Regex
dotted a b = seq (boundary ∷ lit a ∷ spaces? ∷ chr b'.' ∷ spaces? ∷ lit b ∷ boundary ∷ [])

unfoldable pub reads_environ : Text → Bool
reads_environ code =
    search_text (dotted "os" "environ") code || search_text (dotted "process" "env") code

-- The loop over the arguments of an interpreter.
unfoldable pub runs_environ_code : List Text → Bool
unfolding reads_environ
runs_environ_code [] = false
runs_environ_code (a ∷ []) = false
runs_environ_code (a ∷ b ∷ l) =
    (text_eq a (codes "-c") || text_eq a (codes "-e")) && reads_environ (lower b)
    || runs_environ_code (b ∷ l)

unfoldable pub dumps_environment : List Text → Bool
unfolding env_dump_programs auto_env_interpreters runs_environ_code
dumps_environment [] = false
dumps_environment (first ∷ rest) =
    let program = program_name first in
    if any (λ part. fnmatch part (codes "/proc/*/environ")) rest
    then true
    else if member program (texts ("env" ∷ "printenv" ∷ []))
    then true
    else if member program env_dump_programs
    then member (codes "-p") rest || all (λ part. starts_with part (codes "-")) rest
    else member program auto_env_interpreters && runs_environ_code rest

unfoldable pub is_env_dump : List Text → Bool
unfolding effective_shell_tokens dumps_environment
is_env_dump tokens = dumps_environment (effective_shell_tokens tokens)
