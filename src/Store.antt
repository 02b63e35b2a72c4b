-- ===== src/Store.antt =====
-- `RuntimeStore` (runtime_state.py): the tables of a session, each as the list of its rows.
pub mod Table
pub mod Events
pub mod History
pub mod Inbox
pub mod Queue
pub mod Effects
pub mod Once
pub mod Interactions
pub mod Answers
pub mod Runs
pub mod Jobs
pub mod State
pub mod FileOperations
pub mod Chronology
pub mod Recovery
mod Tests
