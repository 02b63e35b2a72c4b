-- ===== src/Permissions/Policy/Patterns.antt =====
-- The regular expressions of permissions.py: what is denied, what is held for approval, and the flags
-- of the text filters.
use noah_code.Prelude.{String, not, ◌||◌, List, [], ◌∷◌, ◌==◌}
use noah_code.Python.Text.{Text, codes, is_space, is_digit, is_word}
use noah_code.Python.Regex.{
  Regex, one, cat, alt, star, boundary, not_ahead, chr, among, plus, opt, spaces, dot, lit, ilit,
  seq, alts, whole,
}

abbrev spaces? : Regex
spaces? = star (one is_space)

abbrev non_space : Regex
non_space = one (λ c. not (is_space c))

-- `\bp\s+q`, without regard to case
abbrev command : String → Regex → Regex
command p q = seq (boundary ∷ ilit p ∷ spaces ∷ q ∷ [])

abbrev rm_root : Regex
rm_root = command "rm" (
    seq (
      star (seq (chr b'-' ∷ star non_space ∷ spaces ∷ []))
      ∷ opt (chr b'-')
      ∷ opt (among "rR")
      ∷ opt (among "fF")
      ∷ opt (among "rR")
      ∷ opt (among "fF")
      ∷ spaces
      ∷ among "/.~*"
      ∷ []))

abbrev rm_recursive : Regex
rm_recursive = command "rm" (
    seq (
      star dot
      ∷ spaces
      ∷ alts (seq (chr b'-' ∷ star non_space ∷ ilit "r" ∷ []) ∷ ilit "-rf" ∷ ilit "-fr" ∷ [])
      ∷ boundary
      ∷ []))

abbrev devices : Regex
devices = alts (
    whole (ilit "mkfs")
    ∷ ilit "/dev/sd"
    ∷ ilit "/dev/disk"
    ∷ whole (ilit "shred")
    ∷ whole (ilit "wipefs")
    ∷ [])

abbrev fork_bomb : Regex
fork_bomb = seq (
    lit ":()"
    ∷ spaces?
    ∷ chr b'{'
    ∷ spaces?
    ∷ lit ":|:"
    ∷ spaces?
    ∷ chr b'&'
    ∷ spaces?
    ∷ chr b'}'
    ∷ spaces?
    ∷ lit ";:"
    ∷ [])

abbrev piped_to_shell : String → Regex
piped_to_shell p =
    seq
      (whole (ilit p) ∷ star dot ∷ chr b'|' ∷ spaces? ∷ opt (ilit "ba") ∷ ilit "sh" ∷ boundary ∷ [])

abbrev at_root : String → Regex
at_root p = seq (whole (ilit p) ∷ plus dot ∷ spaces ∷ chr b'/' ∷ [])

-- `_ALWAYS_DENY_BASH`
unfoldable pub always_deny_bash : List Regex
always_deny_bash =
    rm_root
    ∷ rm_recursive
    ∷ devices
    ∷ fork_bomb
    ∷ command "git" (cat (ilit "push") boundary)
    ∷ command "git" (cat (ilit "clean") boundary)
    ∷ command "git" (seq (ilit "reset" ∷ spaces ∷ ilit "--hard" ∷ boundary ∷ []))
    ∷ command "gh" (
        seq (
          ilit "pr"
          ∷ spaces
          ∷ alts (
              ilit "create"
              ∷ ilit "checkout"
              ∷ ilit "merge"
              ∷ ilit "close"
              ∷ ilit "ready"
              ∷ ilit "review"
              ∷ [])
          ∷ boundary
          ∷ []))
    ∷ command "git" (cat (ilit "filter-branch") boundary)
    ∷ command "export" (cat (ilit "-p") boundary)
    ∷ command "cat" (seq (star dot ∷ ilit ".pem" ∷ boundary ∷ []))
    ∷ command "cat" (seq (star dot ∷ ilit "id_rsa" ∷ boundary ∷ []))
    ∷ command "chmod" (seq (ilit "-R" ∷ spaces ∷ lit "777" ∷ boundary ∷ []))
    ∷ piped_to_shell "curl"
    ∷ piped_to_shell "wget"
    ∷ whole (ilit "sudo")
    ∷ at_root "chmod"
    ∷ at_root "chown"
    ∷ []

abbrev verb : String → String → Regex
verb p q = seq (boundary ∷ lit p ∷ spaces ∷ lit q ∷ boundary ∷ [])

-- `_ALWAYS_ASK_BASH`, with regard to case
unfoldable pub always_ask_bash : List Regex
always_ask_bash =
    whole (lit "rm")
    ∷ whole (lit "mv")
    ∷ whole (lit "dd")
    ∷ whole (lit "chmod")
    ∷ whole (lit "chown")
    ∷ whole (lit "kill")
    ∷ whole (lit "pkill")
    ∷ seq (
        boundary
        ∷ lit "docker"
        ∷ spaces
        ∷ alts (lit "rm" ∷ lit "rmi" ∷ seq (lit "system" ∷ spaces ∷ lit "prune" ∷ []) ∷ [])
        ∷ boundary
        ∷ [])
    ∷ seq (
        boundary ∷ lit "npm" ∷ spaces ∷ alts (lit "publish" ∷ lit "unpublish" ∷ []) ∷ boundary ∷ [])
    ∷ verb "pip" "install"
    ∷ seq (boundary ∷ lit "uv" ∷ spaces ∷ lit "pip" ∷ spaces ∷ lit "install" ∷ boundary ∷ [])
    ∷ whole (lit "curl")
    ∷ whole (lit "wget")
    ∷ seq (
        whole (lit "find")
        ∷ star (one (λ c. not (c == b'|' || c == b';' || c == b'&')))
        ∷ spaces
        ∷ chr b'-'
        ∷ alts (lit "delete" ∷ lit "execdir" ∷ lit "exec" ∷ [])
        ∷ boundary
        ∷ [])
    ∷ []

-- `_MUTATING_GIT`
unfoldable pub mutating_git : Regex
mutating_git = seq (
    boundary
    ∷ lit "git"
    ∷ spaces
    ∷ alts (
        lit "commit"
        ∷ lit "add"
        ∷ lit "push"
        ∷ lit "pull"
        ∷ lit "fetch"
        ∷ lit "rebase"
        ∷ lit "merge"
        ∷ lit "reset"
        ∷ lit "clean"
        ∷ lit "checkout"
        ∷ lit "stash"
        ∷ lit "tag"
        ∷ lit "remote"
        ∷ [])
    ∷ boundary
    ∷ [])

-- `_DEVNULL_REDIRECT`
unfoldable pub devnull_redirect : Regex
devnull_redirect = seq (
    opt (alt (one is_digit) (chr b'&'))
    ∷ alt (cat (among "<>") (among "<>")) (among "<>")
    ∷ spaces?
    ∷ lit "/dev/null"
    ∷ not_ahead (λ c. is_word c || c == b'/')
    ∷ [])

-- `_READ_ONLY_FILTER_FLAGS`, by the program's name
pub record Filter : Type 0 where
  pub program : Text
  pub flags : Regex

abbrev filter_of : String → String → Filter
filter_of p cs = record { program = codes p; flags = cat (chr b'-') (plus (among cs)) }

unfoldable pub read_only_filter_flags : List Filter
read_only_filter_flags =
    filter_of "sort" "bcdfghinMrRsuVz" ∷ filter_of "uniq" "cdui" ∷ filter_of "file" "biL" ∷ []

abbrev line_number : Regex
line_number = alt (cat (among "123456789") (star (one (λ c. is_digit c)))) (chr b'$')

-- `_SED_PRINT`
unfoldable pub sed_print : Regex
sed_print = cat (opt (cat line_number (opt (cat (chr b',') line_number)))) (chr b'p')
