-- ===== src/Mqp/Flow.antt =====
-- src/mqp/r2_flow.rs: wire ids, bindings, the registry of a connection and a session's own table,
-- and the handshake state.
pub mod Ids
pub mod Binding
pub mod Window
pub mod Registry
pub mod Session
pub mod Handshake
