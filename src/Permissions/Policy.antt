-- ===== src/Permissions/Policy.antt =====
-- The tables of permissions.py.
pub mod Patterns
pub mod Flags
