-- ===== src/Permissions/ReadOnly/Trusted.antt =====
-- Which programs a read-only command can run.
use noah_code.Prelude.{◌≡◌, true, false, some, List, ◌∷◌, [], ◌++◌, arith, any-append}
use noah_code.Python.Text.{Text, codes, texts, text_eq, member, first_word}
use noah_code.Python.Shlex
use noah_code.Permissions.ReadOnly.{is_readonly_simple, is_readonly_program, is_filter, flags_of}
use noah_code.Permissions.Policy.Flags.{read_only_programs}
use noah_code.Permissions.Shell.{is_redirecting, is_compound}
use noah_code.Python.Text.Laws.{text_eq_iff}
use noah_code.Permissions.Policy.Patterns.{read_only_filter_flags}

-- Every program for which some argument list is read-only.
abbrev pub trusted_programs : List Text
trusted_programs =
    texts ("git" ∷ "rg" ∷ "find" ∷ "sed" ∷ "sort" ∷ "uniq" ∷ "file" ∷ []) ++ read_only_programs

filter-trusted :
    (p : Text) → is_filter p ≡ true → member p (texts ("sort" ∷ "uniq" ∷ "file" ∷ [])) ≡ true
unfolding is_filter flags_of read_only_filter_flags member
filter-trusted p h = ground arith

pwd_trusted : (p : Text) → text_eq p (codes "pwd") ≡ true → member p read_only_programs ≡ true
unfolding read_only_programs member
pwd_trusted p h = ground arith

is_readonly_program-trusted :
    (p : Text) (args : List Text)
    → is_readonly_program p args ≡ true
    → member p trusted_programs ≡ true
unfolding is_readonly_program member
is_readonly_program-trusted p args h = ground (
  arith,
  filter-trusted p,
  any-append (text_eq p) (texts ("git" ∷ "rg" ∷ "find" ∷ "sed" ∷ "sort" ∷ "uniq" ∷ "file" ∷ []))
      read_only_programs,
  pwd_trusted p,
)

-- A simple command that counts as read-only, and that shlex splits into a program and its
-- arguments, names a trusted program, which is its first word as it is written. It neither
-- redirects nor chains.
pub is_readonly_simple-trusted :
    (cmd program : Text) (args : List Text)
    → is_readonly_simple cmd ≡ true
    → Shlex.split cmd ≡ some (program ∷ args)
    → (member program trusted_programs ≡ true)
      × (first_word cmd ≡ program)
      × (is_redirecting cmd ≡ false)
      × (is_compound cmd ≡ false)
unfolding is_readonly_simple
is_readonly_simple-trusted cmd program args h s = (
  is_readonly_program-trusted program args (ground arith),
  (text_eq_iff (first_word cmd) program).0 (ground arith),
  ground arith,
  ground arith,
)
