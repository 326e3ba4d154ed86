-- ===== src/Udp.antt =====
-- src/udp: payloads that do not fit one frame.
pub mod Frag
pub mod Partial
pub mod Reasm
mod Runs
