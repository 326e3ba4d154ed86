-- ===== src/Server.antt =====
-- src/bin/myquic2-server: how the server installs flows.
pub mod Install
mod Runs
