-- ===== src/Permissions.antt =====
-- permissions.py and approvals.py: the rules that decide what the agent may do.
pub mod Types
pub mod Policy
pub mod Secrets
pub mod SecretTokens
pub mod Shell
pub mod Git
pub mod ReadOnly
pub mod Wrappers
pub mod Interpreters
pub mod External
pub mod Gates
pub mod Engine
pub mod SessionRules
pub mod Broker
pub mod Defaults
mod Tests
mod Examples
mod CommandExamples
mod AskingExamples
