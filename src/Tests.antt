-- ===== src/Tests.antt =====
-- Runs of the code on small inputs, and the properties at concrete inputs.
mod Data
mod History
mod Access
mod Enrollment
mod Versions
mod Sessions
mod Administration
mod Heartbeats
mod Commands
mod Releases
mod Upgrades
mod Helper
mod Signing
mod Edits
mod Upgrading
