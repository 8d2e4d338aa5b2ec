-- ===== src/Runtime.antt =====
-- internal/runtime: the agent, what it keeps between heartbeats, and how it talks to the server.
pub mod Delta
pub mod Stores
pub mod Agent
