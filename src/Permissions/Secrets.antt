-- ===== src/Permissions/Secrets.antt =====
-- Paths and shell arguments that name a credential (permissions.py).
use noah_code.Prelude.{
  Bool, true, false, ◌&&◌, ◌||◌, Option, none, some, List, [], ◌∷◌, map, if◌then◌else◌, any,
}
use noah_code.Python.Text.{
  Text, codes, texts, text_eq, member, starts_with, ends_with, contains, lower,
}
use noah_code.Python.FilePath

unfoldable pub secret_basenames : List Text
secret_basenames = texts (
    ".env" ∷ ".env.development" ∷ ".env.local" ∷ ".env.production" ∷ ".envrc" ∷ ".netrc" ∷ ".npmrc"
    ∷ ".pgpass" ∷ ".pypirc" ∷ "credentials" ∷ "credentials.json" ∷ "id_ecdsa" ∷ "id_ed25519"
    ∷ "id_rsa" ∷ "service-account.json" ∷ [])

unfoldable pub secret_suffixes : List Text
secret_suffixes = texts (".pem" ∷ ".key" ∷ ".p12" ∷ ".pfx" ∷ ".jks" ∷ ".keystore" ∷ [])

unfoldable pub secret_allow : List Text
secret_allow = texts (".env.example" ∷ ".env.sample" ∷ ".env.template" ∷ [])

-- `parts[-2], parts[-1]`
abbrev last_two : List Text → Option (Text × Text)
last_two [] = none
last_two (a ∷ []) = none
last_two (a ∷ b ∷ []) = some (a, b)
last_two (a ∷ b ∷ c ∷ l) = last_two (b ∷ c ∷ l)

unfoldable pub is_secret_dir_file : Option (Text × Text) → Bool
is_secret_dir_file none = false
is_secret_dir_file (some (d, f)) =
    text_eq d (codes ".docker") && text_eq f (codes "config.json")
    || text_eq d (codes ".kube") && text_eq f (codes "config")

unfoldable pub is_secret_path : Text → Bool
unfolding secret_allow secret_basenames secret_suffixes is_secret_dir_file
is_secret_path path =
    let name = lower (FilePath.name path) in
    let parts = map lower (FilePath.parts path) in
    if member name secret_allow
    then false
    else if member name secret_basenames
    then true
    else if starts_with name (codes ".env.")
    then true
    else if any (ends_with name) secret_suffixes
    then true
    else if contains name (codes "id_rsa") || contains name (codes "id_ed25519")
    then true
    else if member (codes ".git") parts
    then true
    else if is_secret_dir_file (last_two parts)
    then true
    else ends_with name (codes ".db")
      && contains (lower (FilePath.to_text path)) (codes "noah-code")
