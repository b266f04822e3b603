-- ===== src/Assistant.antt =====
-- The assistant service: the rate limit of its chat.
pub mod RateLimit
pub mod ChatBounds
pub mod Admission
pub mod Retry
pub mod Agent
pub mod AgentTurns
pub mod AgentEnds
mod Tests
