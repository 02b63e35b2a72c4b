-- ===== src/Permissions/External.antt =====
-- Arguments that lead out of the workspace (permissions.py).
use noah_code.Prelude.{Bool, true, false, ◌&&◌, ◌||◌, Option, none, some, if◌then◌else◌, any}
use noah_code.Python.Text.{Text, codes, text_eq, member, starts_with, has, after?}
use noah_code.Python.FilePath
use noah_code.Python.Shlex
use noah_code.Permissions.SecretTokens.{joined_value}

-- The piece of a token that may be a path; `none` for a plain flag.
unfoldable pub path_piece : Text → Option Text
path_piece token =
    if starts_with token (codes "-") && has b'=' token
    then after? b'=' token
    else (elim (joined_value token) [
      | some v ↦ some v
      | none ↦ if starts_with token (codes "-") then none else some token
    ])

unfoldable pub is_external_piece : Text → Bool
is_external_piece piece =
    has b'$' piece
    || has b'`' piece
    || starts_with piece (codes "~")
    || starts_with piece (codes "/")
    || text_eq piece (codes "..")
    || member (codes "..") (FilePath.parts piece)

unfoldable pub is_external_token : Text → Bool
unfolding path_piece is_external_piece
is_external_token token = elim (path_piece token) [ none ↦ false | some p ↦ is_external_piece p ]

unfoldable pub command_has_external_path : Text → Bool
unfolding is_external_token
command_has_external_path command = elim (Shlex.split command) [
  | none ↦ true
  | some tokens ↦ any is_external_token tokens
]
