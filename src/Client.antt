-- ===== src/Client.antt =====
-- src/bin/myquic2-client/rev2.rs: the client's per-connection and per-association flow state.
pub mod Rejects
pub mod Uplink
mod Runs
