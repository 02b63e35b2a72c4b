-- ===== src/Permissions/Defaults.antt =====
-- The rules that a configuration starts with (config.py).
pub mod Unattended
use noah_code.Prelude.{String, List, [], ◌∷◌, Bool, false}
use noah_code.Python.Text.{codes}
use noah_code.Permissions.Types.{Rule, Action, allow, ask, deny, Engine, build}

abbrev rule : String → String → Action → String → Rule
rule category pattern action reason = record {
  category = codes category;
  pattern = codes pattern;
  action = action;
  reason = codes reason;
}

unfoldable pub default_permission_rules : List Rule
default_permission_rules =
    rule "read" "*" allow "reads allowed"
    ∷ rule "read" "**/.env" deny "secret env files denied"
    ∷ rule "read" "**/.env.*" deny "secret env files denied"
    ∷ rule "read" "**/.env.example" allow "example env files are safe"
    ∷ rule "read" "**/*.pem" deny "private keys denied"
    ∷ rule "read" "**/*id_rsa*" deny "private keys denied"
    ∷ rule "read" "**/.git/**" deny ".git internals denied"
    ∷ rule "read" "**/noah-code/**/*.db" deny "session databases denied"
    ∷ rule "edit" "*" allow "workspace edits are allowed in build mode"
    ∷ rule "bash" "*" ask "non-read-only shell commands require approval"
    ∷ rule "bash" "git push*" deny "push denied by default"
    ∷ rule "bash" "git clean*" deny "destructive git clean denied"
    ∷ rule "bash" "git reset --hard*" deny "destructive git reset denied"
    ∷ rule "external_directory" "*" ask "external paths require approval"
    ∷ rule "task" "*" allow "delegation is allowed"
    ∷ rule "skill" "*" allow "skills are allowed"
    ∷ rule "mcp" "*" ask "MCP requires approval"
    ∷ rule "lsp" "*" allow "LSP read-only by default"
    ∷ rule "webfetch" "*" allow "web fetches are read-only"
    ∷ rule "websearch" "*" allow "web searches are read-only"
    ∷ rule "question" "*" allow "asking the user is allowed"
    ∷ rule "github" "*" ask "GitHub mutations require approval"
    ∷ rule "github" "list" allow "listing pull requests is read-only"
    ∷ rule "github" "view" allow "viewing a pull request is read-only"
    ∷ []

-- An engine in build mode with the default rules, and with no approval and no mode that loosens them.
abbrev pub default_engine : Engine
default_engine = record {
  rules = default_permission_rules;
  mode = build;
  auto_approve = false;
  yolo = false;
  session_rules = [];
}
