-- ===== src/Security.antt =====
-- app/security: risk assessments, their fusion, the structural rails, and what needs confirmation.
pub mod Assessment
pub mod Ensemble
pub mod Fusion
pub mod Confirmation
pub mod Approval
pub mod Rails
pub mod Triggered
mod Tests
