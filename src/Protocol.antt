-- ===== src/Protocol.antt =====
-- protocol/v1: the wire types, their validation, and the schema bundles the agent accepts.
pub mod Value
pub mod Types
pub mod Bounded
pub mod Contract
pub mod Monitoring
pub mod Heartbeat
pub mod Snapshot
pub mod Bundle
