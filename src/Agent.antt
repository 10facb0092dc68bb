-- ===== src/Agent.antt =====
-- The agent, agent/.
pub mod Files
pub mod Upgrade
pub mod Helper
pub mod Sign
