-- ===== src/Linux.antt =====
-- internal/collectors/linux: the parsers of /proc.
pub mod Proc
pub mod Mounts
pub mod Memory
