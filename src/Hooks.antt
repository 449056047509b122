-- ===== src/Hooks.antt =====
-- app/hooks: what hooks may decide about an agent's steps, and the manager that runs them.
pub mod Types
pub mod Aggregate
pub mod Manager
pub mod Emit
pub mod Denial
mod Tests
