-- ===== src/Context.antt =====
-- app/context: the projection of a conversation that a language model sees.
pub mod Events
pub mod Batches
pub mod Uniqueness
pub mod Matching
pub mod Loops
pub mod View
pub mod Rolling
mod Tests
