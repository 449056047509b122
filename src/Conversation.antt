-- ===== src/Conversation.antt =====
-- app/conversation/state.py: the runtime state of a conversation.
pub mod State
pub mod Transitions
mod Tests
