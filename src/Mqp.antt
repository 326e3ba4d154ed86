-- ===== src/Mqp.antt =====
-- src/mqp: the MQP-3 wire.
pub mod Error
pub mod Addr
pub mod R3
pub mod CtlStream
pub mod R2
pub mod Fragment
pub mod Wire
pub mod Flow
mod Runs
