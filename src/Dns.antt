-- ===== src/Dns.antt =====
-- src/dns: the caches of resolved names.
pub mod Memo
pub mod Key
mod Runs
