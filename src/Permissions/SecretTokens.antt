-- ===== src/Permissions/SecretTokens.antt =====
-- Shell arguments that name a credential, by a path or by a glob that may expand to one
-- (permissions.py).
use noah_code.Prelude.{
  ℕ, zero, suc, ◌-◌, Bool, true, false, ◌&&◌, ◌||◌, not, Option, none, some, List, [], ◌∷◌, ◌++◌,
  map, leb, ◌==◌, if◌then◌else◌, any, all, length, collect,
}
use noah_code.Python.Text.{
  Text, codes, texts, starts_with, contains, has, lower, is_letter, rsplit?, after?, split_on,
}
use noah_code.Python.FilePath
use noah_code.Python.Fnmatch.{fnmatch}
use noah_code.Permissions.Secrets.{secret_suffixes, secret_basenames, is_secret_path}

-- `_GLOB_META`
abbrev is_glob_meta : ℕ → Bool
is_glob_meta c = c == b'*' || c == b'?' || c == b'['

unfoldable pub dot_secret_glob_probes : List Text
dot_secret_glob_probes =
    texts (".env" ∷ ".env.local" ∷ ".env.production" ∷ ".env.secret" ∷ ".git" ∷ [])

unfoldable pub suffix_secret_glob_probes : List Text
unfolding secret_suffixes
suffix_secret_glob_probes = map (λ s. codes "private" ++ s) secret_suffixes

-- `pattern.find("]", index + 1)`: the members of the set, and the text behind its bracket
unfoldable pub up_to_bracket : Text → Option (Text × Text)
up_to_bracket [] = none
up_to_bracket (c ∷ s) = elim (c == b']') [
  | true ↦ some ([], s)
  | false ↦ elim (up_to_bracket s) [ none ↦ none | some (a, b) ↦ some (c ∷ a, b) ]
]

-- `runs.append("".join(current))`, where `current` is not empty
abbrev flush : Text → List Text → List Text
flush [] runs = runs
flush (c ∷ s) runs = (c ∷ s) ∷ runs

-- `members and not members.startswith(("!", "^")) and len(set(members)) == 1`
unfoldable pub names_one : Text → Option ℕ
names_one [] = none
names_one (c ∷ s) = if not (c == b'!' || c == b'^') && all (λ d. d == c) s then some c else none

-- The loop of `_glob_literal_runs`. `skip` counts the characters of a set that was just read.
unfoldable pub literal_runs_from : ℕ → Text → Text → List Text
unfolding up_to_bracket names_one
literal_runs_from skip current [] = flush current []
literal_runs_from (suc skip) current (c ∷ s) = literal_runs_from skip current s
literal_runs_from zero current (c ∷ s) = elim (c == b'*' || c == b'?') [
  | true ↦ flush current (literal_runs_from zero [] s)
  | false ↦ elim (c == b'[') [
    | true ↦ elim (up_to_bracket s) [
      | none ↦ literal_runs_from zero (current ++ c ∷ []) s
      | some (members, rest) ↦ elim (names_one members) [
        | some m ↦ literal_runs_from (length s - length rest) (current ++ m ∷ []) s
        | none ↦ flush current (literal_runs_from (length s - length rest) [] s)
      ]
    ]
    | false ↦ literal_runs_from zero (current ++ c ∷ []) s
  ]
]

unfoldable pub glob_literal_runs : Text → List Text
unfolding literal_runs_from
glob_literal_runs pattern = literal_runs_from zero [] pattern

-- The loop of `_glob_pattern_specificity`
unfoldable pub specificity_from : ℕ → Text → ℕ
unfolding up_to_bracket
specificity_from skip [] = 0
specificity_from (suc skip) (c ∷ s) = specificity_from skip s
specificity_from zero (c ∷ s) = elim (c == b'*' || c == b'?') [
  | true ↦ specificity_from zero s
  | false ↦ elim (c == b'[') [
    | true ↦ elim (up_to_bracket s) [
      | none ↦ suc (specificity_from zero s)
      | some (members, rest) ↦ suc (specificity_from (length s - length rest) s)
    ]
    | false ↦ suc (specificity_from zero s)
  ]
]

unfoldable pub glob_pattern_specificity : Text → ℕ
unfolding specificity_from
glob_pattern_specificity pattern = specificity_from zero pattern

-- `probe.rsplit(".", 1)[0]`
abbrev stem : Text → Text
stem probe = elim (rsplit? b'.' probe) [ none ↦ probe | some (a, b) ↦ a ]

unfoldable pub glob_component_may_match_secret : Text → Bool
unfolding glob_literal_runs glob_pattern_specificity dot_secret_glob_probes
    suffix_secret_glob_probes secret_basenames
glob_component_may_match_secret component =
    let pattern = lower component in
    let literal_runs = glob_literal_runs pattern in
    let specificity = glob_pattern_specificity pattern in
    let distinctive = collect (split_on b'.') literal_runs in
    if not (any is_glob_meta pattern)
    then false
    else if starts_with pattern (codes ".env.")
    then true
    else if leb 2 specificity && any (λ probe. fnmatch probe pattern) dot_secret_glob_probes
    then true
    else if any
        (λ probe.
          fnmatch probe pattern
          && any (λ f. leb 2 (length f) && contains (stem probe) f) distinctive)
        secret_basenames
    then true
    else leb 2 specificity && any (λ probe. fnmatch probe pattern) suffix_secret_glob_probes

-- `_WINDOWS_DRIVE_PATH.match(value)`
abbrev is_windows_drive : Text → Bool
is_windows_drive (a ∷ b ∷ []) = is_letter a && b == b':'
is_windows_drive (a ∷ b ∷ c ∷ []) = is_letter a && b == b':' && (c == 10 || c == 92 || c == b'/')
is_windows_drive (a ∷ b ∷ c ∷ d ∷ s) = is_letter a && b == b':' && (c == 92 || c == b'/')
is_windows_drive _ = false

unfoldable pub git_object_path_candidate : Text → Option Text
git_object_path_candidate value =
    if not (has b':' value) || contains value (codes "://") || is_windows_drive value
    then none
    else (elim (rsplit? b':' value) [ none ↦ none | some (a, b) ↦ some b ])

-- `_SHORT_FLAG_JOINED_VALUE.match(token)` and `token[2:]`: a flag letter and what is joined to it.
abbrev pub joined_value : Text → Option Text
joined_value (a ∷ b ∷ c ∷ s) =
    if a == b'-' && is_letter b && not (c == 10) then some (c ∷ s) else none
joined_value _ = none

-- The path that a token may carry: the value of `-…=value`, of `-fvalue`, or the token itself.
unfoldable pub flag_value : Text → Text
flag_value token =
    if starts_with token (codes "-") && has b'=' token
    then (elim (after? b'=' token) [ none ↦ token | some v ↦ v ])
    else (elim (joined_value token) [ none ↦ token | some v ↦ v ])

unfoldable pub is_secret_candidate : Text → Bool
unfolding is_secret_path glob_component_may_match_secret
is_secret_candidate candidate =
    is_secret_path candidate || any glob_component_may_match_secret (FilePath.parts candidate)

unfoldable pub is_secret_shell_token : Text → Bool
unfolding flag_value git_object_path_candidate is_secret_candidate
is_secret_shell_token token =
    let value = flag_value token in
    is_secret_candidate value
    || (elim (git_object_path_candidate value) [ none ↦ false | some p ↦ is_secret_candidate p ])
