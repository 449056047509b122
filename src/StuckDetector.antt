-- ===== src/StuckDetector.antt =====
-- app/conversation/stuck_detector.py: the five patterns by which a conversation counts as stuck.
pub mod Events
pub mod Pairs
pub mod Checks
pub mod Termination
pub mod Verdicts
mod Tests
