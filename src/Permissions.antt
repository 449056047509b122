-- ===== src/Permissions.antt =====
-- app/permissions/gate.py: which tool calls run, need approval, or are blocked.
pub mod Gate
pub mod Approval
pub mod SameCall
mod Tests
