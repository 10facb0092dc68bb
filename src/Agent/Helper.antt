-- ===== src/Agent/Helper.antt =====
-- agent/helper.go: the privileged helper, which inspects, stops and restarts processes and services
-- for the agent.
pub mod Args
pub mod Services
pub mod Process
pub mod Store
pub mod Start
pub mod Actions
pub mod Requests
