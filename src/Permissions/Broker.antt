-- ===== src/Permissions/Broker.antt =====
-- `ApprovalBroker` (approvals.py).
pub mod Remembering
pub mod Asking
use noah_code.Prelude.{[]}
use noah_code.Python.Text.{codes}
use noah_code.Permissions.Types.{Decision, Rule, allow, label}

-- The rule that a choice of `SESSION` adds.
unfoldable pub remembered_rule : Decision → Rule
remembered_rule d = record {
  category = label d.category;
  pattern = d.remember_pattern;
  action = allow;
  reason = codes "remembered for session";
}
