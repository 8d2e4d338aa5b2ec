-- ===== src/Examples.antt =====
-- The theorems at concrete inputs, with small stand-ins for the codecs that the program imports.
mod State
mod Queue
mod Delta
mod Messages
mod Versions
mod Agents
mod Configs
mod Updates
mod Services
mod Linux
