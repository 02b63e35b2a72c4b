-- ===== src/Checks/Label.antt =====
-- `check_label`: a command that is a single check, whose exit status says whether it passed.
-- The tokenizer (shlex with punctuation characters) is an argument.
use noah_code.Python.FilePath
use noah_code.Python.Regex.{plus, Regex, cat, lit, chr, fullmatch, opt, one, among}
use noah_code.Prelude.{
  true, false, ℕ, List, Option, Bool, none, some, ◌∷◌, if◌then◌else◌, ◌≡◌, all, [], any, ◌==◌, null,
  ◌||◌, ◌++◌, ◌≢◌, arith, ◌&&◌,
}
use noah_code.Python.Text.{Text, texts, text_eq, member, has, codes, before, is_digit}

abbrev pub is_uncertain_char : ℕ → Bool
is_uncertain_char c = c == 10 || c == 13 || c == b'`' || c == b'$'

unfoldable pub is_operator : Text → Bool
is_operator token = all (λ c. has c (codes ";|&<>()")) token

unfoldable pub uv_flags : List Text
uv_flags = texts ("--no-sync" ∷ "--locked" ∷ "--frozen" ∷ "--offline" ∷ "-q" ∷ "--quiet" ∷ [])

abbrev drop_while : (Text → Bool) → List Text → List Text
drop_while p [] = []
drop_while p (t ∷ l) = elim (p t) [ true ↦ drop_while p l | false ↦ t ∷ l ]

-- `uv run` and its flags
unfoldable pub behind_uv : List Text → List Text
unfolding uv_flags
behind_uv (uv ∷ run ∷ l) =
    if text_eq (FilePath.name uv) (codes "uv") && text_eq run (codes "run")
    then drop_while (λ t. member t uv_flags) l
    else uv ∷ run ∷ l
behind_uv l = l

unfoldable pub python_name : Regex
python_name =
    cat (lit "python") (opt (cat (chr b'3') (opt (cat (chr b'.') (plus (one (λ c. is_digit c)))))))

unfoldable pub python_switches : Regex
python_switches = cat (chr b'-') (plus (among "BIEsSPOubq"))

abbrev behind_m : List Text → Option (List Text)
behind_m [] = none
behind_m (t ∷ l) = if text_eq t (codes "-m") then some l else none

-- `none` where an interpreter runs no module.
unfoldable pub behind_python : List Text → Option (List Text)
unfolding python_name python_switches
behind_python [] = some []
behind_python (t ∷ l) =
    if fullmatch python_name (FilePath.name t)
    then behind_m (drop_while (λ s. fullmatch python_switches s) l)
    else some (t ∷ l)

unfoldable pub is_inert_flag : Text → Bool
is_inert_flag token =
    member (before b'=' token)
      (texts ("--help" ∷ "-h" ∷ "--version" ∷ "-V" ∷ "--collect-only" ∷ "--co" ∷ []))

abbrev behind_run : List Text → List Text
behind_run [] = []
behind_run (t ∷ l) = if text_eq t (codes "run") then l else t ∷ l

abbrev task_label : Text → List Text → Option Text
task_label executable [] = none
task_label executable (task ∷ l) =
    if member task
      (texts ("test" ∷ "check" ∷ "lint" ∷ "build" ∷ "typecheck" ∷ "clippy" ∷ "vet" ∷ []))
    then some (executable ++ codes " " ++ task)
    else none

abbrev begins_with_check : List Text → Bool
begins_with_check [] = false
begins_with_check (t ∷ l) = text_eq t (codes "check")

unfoldable pub label_of : List Text → Option Text
label_of [] = none
label_of (t ∷ l) =
    let executable = FilePath.name t in
    if member executable
      (texts ("pytest" ∷ "unittest" ∷ "mypy" ∷ "pyright" ∷ "tsc" ∷ "jest" ∷ "vitest" ∷ []))
    then some executable
    else if text_eq executable (codes "ruff") && begins_with_check l
    then some (codes "ruff")
    else if member executable (texts ("npm" ∷ "pnpm" ∷ "yarn" ∷ "cargo" ∷ "go" ∷ "make" ∷ []))
    then task_label executable (behind_run l)
    else none

unfoldable pub label_tokens : Option (List Text) → Option Text
unfolding label_of
label_tokens none = none
label_tokens (some tokens) = if any is_inert_flag tokens then none else label_of tokens

unfoldable pub check_label : (Text → Option (List Text)) → Text → Option Text
unfolding label_tokens behind_python behind_uv
check_label tokenize command =
    if any is_uncertain_char command then none else (elim (tokenize command) [
      | none ↦ none
      | some tokens ↦
          if null tokens || any is_operator tokens
          then none
          else label_tokens (behind_python (behind_uv tokens))
    ])

-- A command with a label has no line break, backquote or dollar sign, and the tokenizer gives
-- it tokens, at least one, of which none consists of operators of the shell.
pub check_label-simple :
    (tokenize : Text → Option (List Text)) (command label : Text)
    → check_label tokenize command ≡ some label
    → (any is_uncertain_char command ≡ false)
      × ((tokens : List Text) × (tokenize command ≡ some tokens)
          × (tokens ≢ [])
          × (any is_operator tokens ≡ false))
unfolding check_label
check_label-simple tokenize command label h = ground arith
