-- ===== src/Permissions/Policy/Flags.antt =====
-- The programs, subcommands and flags that permissions.py counts as read-only.
use noah_code.Prelude.{List, [], ◌∷◌}
use noah_code.Python.Text.{Text, codes, texts}

-- `_READ_ONLY_PROGRAMS`
unfoldable pub read_only_programs : List Text
read_only_programs = texts (
    "grep" ∷ "egrep" ∷ "fgrep" ∷ "find" ∷ "ls" ∷ "pwd" ∷ "head" ∷ "tail" ∷ "wc" ∷ "stat" ∷ "test"
    ∷ "cut" ∷ "tr" ∷ "tac" ∷ "column" ∷ [])

unfoldable pub read_only_git_subcommands : List Text
read_only_git_subcommands = texts ("branch" ∷ "diff" ∷ "log" ∷ "rev-parse" ∷ "show" ∷ "status" ∷ [])

unfoldable pub git_read_unsafe_flags : List Text
git_read_unsafe_flags = texts ("--ext-diff" ∷ "--output" ∷ "--textconv" ∷ [])

unfoldable pub git_patch_subcommands : List Text
git_patch_subcommands = texts ("diff" ∷ "log" ∷ "show" ∷ [])

unfoldable pub git_non_patch_output_flags : List Text
git_non_patch_output_flags = texts (
    "--dirstat" ∷ "--exit-code" ∷ "--format" ∷ "--name-only" ∷ "--name-status" ∷ "--no-patch"
    ∷ "--numstat" ∷ "--oneline" ∷ "--pretty" ∷ "--quiet" ∷ "--raw" ∷ "--shortlog" ∷ "--shortstat"
    ∷ "--stat" ∷ "--summary" ∷ [])

unfoldable pub git_branch_mutating_long_flags : List Text
git_branch_mutating_long_flags = texts (
    "--copy" ∷ "--create-reflog" ∷ "--delete" ∷ "--edit-description" ∷ "--force" ∷ "--move"
    ∷ "--no-track" ∷ "--recurse-submodules" ∷ "--set-upstream-to" ∷ "--track" ∷ "--unset-upstream"
    ∷ [])

unfoldable pub git_branch_list_long_flags : List Text
git_branch_list_long_flags = texts (
    "--abbrev" ∷ "--all" ∷ "--color" ∷ "--column" ∷ "--contains" ∷ "--format" ∷ "--ignore-case"
    ∷ "--list" ∷ "--merged" ∷ "--no-color" ∷ "--no-column" ∷ "--no-contains" ∷ "--no-merged"
    ∷ "--omit-empty" ∷ "--points-at" ∷ "--quiet" ∷ "--remotes" ∷ "--show-current" ∷ "--sort"
    ∷ "--verbose" ∷ [])

unfoldable pub git_branch_list_action_long_flags : List Text
git_branch_list_action_long_flags = texts (
    "--all" ∷ "--contains" ∷ "--list" ∷ "--merged" ∷ "--no-contains" ∷ "--no-merged" ∷ "--points-at"
    ∷ "--remotes" ∷ "--show-current" ∷ [])

unfoldable pub git_branch_value_long_flags : List Text
git_branch_value_long_flags = texts ("--format" ∷ "--sort" ∷ [])

unfoldable pub git_branch_mutating_short_flags : Text
git_branch_mutating_short_flags = codes "dDmMcCftu"

unfoldable pub git_branch_list_short_flags : Text
git_branch_list_short_flags = codes "ailrvq"

unfoldable pub git_branch_list_action_short_flags : Text
git_branch_list_action_short_flags = codes "alr"

unfoldable pub rg_unsafe_long_flags : List Text
rg_unsafe_long_flags = texts ("--hostname-bin" ∷ "--pre" ∷ "--search-zip" ∷ [])

unfoldable pub find_mutating_flags : List Text
find_mutating_flags = texts (
    "-delete" ∷ "-exec" ∷ "-execdir" ∷ "-ok" ∷ "-okdir" ∷ "-fls" ∷ "-fprint" ∷ "-fprint0"
    ∷ "-fprintf" ∷ [])
