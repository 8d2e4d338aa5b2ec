-- ===== src/Update.antt =====
-- internal/agentupdate: versions, the release endpoint, the service managers and the update run.
pub mod Version
pub mod Machine
pub mod Platform
pub mod Release
pub mod Run
