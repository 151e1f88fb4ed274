-- ===== src/Permissions.antt =====
-- app/permissions.ts: what the actuator may write.
pub mod Glob
pub mod Policy
pub mod Decision
pub mod Paths
pub mod Writes
pub mod Stop
pub mod Requests
pub mod Total
pub mod Defaults
pub mod Protected
