-- ===== src/Mqp/R3.antt =====
-- src/mqp/r3.rs
pub mod Frame
pub mod Fid
pub mod Field
pub mod Data
pub mod Frag
pub mod Ctl
pub mod Train
