-- ===== src/Cancellation.antt =====
-- app/conversation/cancellation_token.py: the token that tells threads to stop.
pub mod Token
pub mod Threads
pub mod Settled
pub mod Final
mod Tests
