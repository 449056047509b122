-- ===== src/AgentRouter.antt =====
-- app/agent/router.py: the routing of messages to agents, and the cache of agents.
pub mod Registry
pub mod Capacity
pub mod Routes
pub mod Priority
pub mod Router
pub mod Sessions
mod Tests
