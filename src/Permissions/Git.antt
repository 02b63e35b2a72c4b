-- ===== src/Permissions/Git.antt =====
-- The read-only forms of git, and those that print whole patches (permissions.py).
use noah_code.Prelude.{
  Bool, true, false, ◌&&◌, ◌||◌, not, Option, none, some, List, [], ◌∷◌, if◌then◌else◌, any, null,
}
use noah_code.Python.Text.{Text, codes, text_eq, member, starts_with, has, lower, before}
use noah_code.Python.Shlex
use noah_code.Permissions.Policy.Flags.{
  read_only_git_subcommands, git_read_unsafe_flags, git_patch_subcommands,
  git_non_patch_output_flags, git_branch_mutating_long_flags, git_branch_list_long_flags,
  git_branch_list_action_long_flags, git_branch_value_long_flags, git_branch_mutating_short_flags,
  git_branch_list_short_flags, git_branch_list_action_short_flags,
}

abbrev tail : Text → Text
tail [] = []
tail (c ∷ s) = s

-- The loop's variables in `_is_readonly_git_branch`.
pub record BranchScan : Type 0 where
  pub listing : Bool
  pub options_done : Bool
  pub expects_value : Bool

abbrev pub branch_start : BranchScan
branch_start = record { listing = false; options_done = false; expects_value = false }

-- One token with an option's name; `none` is `return False`.
unfoldable pub branch_long : BranchScan → Text → Option BranchScan
unfolding git_branch_mutating_long_flags git_branch_list_long_flags
    git_branch_list_action_long_flags git_branch_value_long_flags
branch_long b lowered =
    let name = before b'=' lowered in
    if member name git_branch_mutating_long_flags
    then none
    else if not (member name git_branch_list_long_flags)
    then none
    else some (record b {
      listing = b.listing || member name git_branch_list_action_long_flags;
      expects_value = not (has b'=' lowered) && member name git_branch_value_long_flags;
    })

unfoldable pub branch_short : BranchScan → Text → Option BranchScan
unfolding git_branch_mutating_short_flags git_branch_list_short_flags
    git_branch_list_action_short_flags
branch_short b flags =
    if any (λ f. has f git_branch_mutating_short_flags) flags
    then none
    else if null flags || any (λ f. not (has f git_branch_list_short_flags)) flags
    then none
    else some (record b {
      listing = b.listing || any (λ f. has f git_branch_list_action_short_flags) flags;
    })

unfoldable pub branch_token : BranchScan → Text → Option BranchScan
unfolding branch_long branch_short
branch_token b token =
    let lowered = lower token in
    if b.expects_value
    then some (record b { expects_value = false })
    else if b.options_done
    then (if b.listing then some b else none)
    else if text_eq lowered (codes "--")
    then some (record b { options_done = true })
    else if starts_with lowered (codes "--")
    then branch_long b lowered
    else if starts_with lowered (codes "-") && not (text_eq lowered (codes "-"))
    then branch_short b (tail lowered)
    else if b.listing
    then some b
    else none

unfoldable pub branch_scan : BranchScan → List Text → Bool
branch_scan b [] = not b.expects_value
branch_scan b (token ∷ l) = elim (branch_token b token) [
  | none ↦ false
  | some b' ↦ branch_scan b' l
]

unfoldable pub is_readonly_git_branch : List Text → Bool
unfolding branch_scan branch_token
is_readonly_git_branch args = if null args then true else branch_scan branch_start args

unfoldable pub is_unsafe_git_flag : Text → Bool
unfolding git_read_unsafe_flags
is_unsafe_git_flag token =
    let name = before b'=' (lower token) in
    member name git_read_unsafe_flags
    || starts_with name (codes "--")
      && any (λ unsafe. starts_with unsafe name) git_read_unsafe_flags

-- The loop of `_is_readonly_git`: what stands behind `--` is not looked at.
unfoldable pub git_options : List Text → Bool
unfolding is_unsafe_git_flag
git_options [] = true
git_options (token ∷ l) = elim (text_eq token (codes "--")) [
  | true ↦ true
  | false ↦ not (is_unsafe_git_flag token) && git_options l
]

unfoldable pub is_readonly_git : List Text → Bool
unfolding read_only_git_subcommands is_readonly_git_branch git_options
is_readonly_git [] = false
is_readonly_git (subcommand ∷ args) =
    let name = lower subcommand in
    if not (member name read_only_git_subcommands)
    then false
    else if text_eq name (codes "branch")
    then is_readonly_git_branch args
    else git_options args

-- The loop of `_git_unscoped_patch_output`, with `patch_requested` and `patch_suppressed`.
unfoldable pub patch_scan : Bool → Bool → List Text → Bool
unfolding git_non_patch_output_flags
patch_scan requested suppressed [] = requested || not suppressed
patch_scan requested suppressed (token ∷ l) =
    let lowered = lower token in
    let name = before b'=' lowered in
    elim (text_eq token (codes "--")) [
      | true ↦ if null l then requested || not suppressed else false
      | false ↦ elim (text_eq lowered (codes "-p") || text_eq name (codes "--patch")) [
        | true ↦ patch_scan true suppressed l
        | false ↦ elim (text_eq lowered (codes "-s") || member name git_non_patch_output_flags) [
          | true ↦ patch_scan requested true l
          | false ↦
              elim (not (starts_with token (codes "-"))
                && (has b'/' token
                    || has b':' token
                    || starts_with token (codes ".")
                    || starts_with token (codes "~"))) [
                      | true ↦ false
                      | false ↦ patch_scan requested suppressed l
                    ]
        ]
      ]
    ]

unfoldable pub patch_output : List Text → Bool
unfolding patch_scan git_patch_subcommands
patch_output (program ∷ subcommand ∷ args) =
    if not (text_eq program (codes "git"))
    then false
    else if not (member (lower subcommand) git_patch_subcommands)
    then false
    else patch_scan false false args
patch_output _ = false

unfoldable pub git_unscoped_patch_output : Text → Bool
unfolding patch_output
git_unscoped_patch_output command = elim (Shlex.split command) [
  | none ↦ false
  | some tokens ↦ patch_output tokens
]
