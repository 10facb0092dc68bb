-- ===== src/Server.antt =====
-- The server, server/.
pub mod State
pub mod RateLimit
pub mod Auth
pub mod Online
pub mod Register
pub mod Password
pub mod Session
pub mod Nodes
pub mod Maintenance
pub mod Command
pub mod Heartbeat
