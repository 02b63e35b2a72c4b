-- ===== src/Permissions/Types.antt =====
-- The categories, rules, decisions and the engine's state (config.py and permissions.py).
use noah_code.Prelude.{Bool, true, false, Option, List}
use noah_code.Python.Text.{Text, codes}

pub data Action : Type 0 where
  allow ask deny : Action

-- `PermissionCategory`: every caller of `decide` passes a member, or its literal text.
pub data Category : Type 0 where
  read edit bash external_directory task skill mcp lsp webfetch websearch question github : Category

abbrev pub label : Category → Text
label read = codes "read"
label edit = codes "edit"
label bash = codes "bash"
label external_directory = codes "external_directory"
label task = codes "task"
label skill = codes "skill"
label mcp = codes "mcp"
label lsp = codes "lsp"
label webfetch = codes "webfetch"
label websearch = codes "websearch"
label question = codes "question"
label github = codes "github"

abbrev pub is_bash : Category → Bool
is_bash bash = true
is_bash _ = false

abbrev pub reads_or_edits : Category → Bool
reads_or_edits read = true
reads_or_edits edit = true
reads_or_edits _ = false

abbrev pub is_allow : Action → Bool
is_allow allow = true
is_allow _ = false

abbrev pub is_ask : Action → Bool
is_ask ask = true
is_ask _ = false

abbrev pub is_deny : Action → Bool
is_deny deny = true
is_deny _ = false

-- `PermissionRule`: the category of a rule is free text, `*` for every category.
pub record Rule : Type 0 where
  pub category : Text
  pub pattern : Text
  pub action : Action
  pub reason : Text

-- `PermissionDecision`
pub record Decision : Type 0 where
  pub category : Category
  pub target : Text
  pub action : Action
  pub matching_rule : Option Rule
  pub reason : Text
  pub remember_pattern : Text
  pub tool : Text
  pub elevated_floor : Bool

pub data Mode : Type 0 where
  build plan : Mode

-- `PermissionEngine`
pub record Engine : Type 0 where
  pub rules : List Rule
  pub mode : Mode
  pub auto_approve : Bool
  pub yolo : Bool
  pub session_rules : List Rule
