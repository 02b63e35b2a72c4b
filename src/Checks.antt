-- ===== src/Checks.antt =====
-- The checks that an agent ran, as evidence that its work is complete (verification.py).
pub mod Label
pub mod Ledger
pub mod Evidence
pub mod Blockers
pub mod Runs
mod Tests
