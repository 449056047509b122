-- ===== src/Credentials.antt =====
-- app/llm/credential_pool.py: API keys, their cooldown, and the choice among providers.
pub mod Pool
pub mod Rotator
pub mod Best
pub mod Order
mod Tests
