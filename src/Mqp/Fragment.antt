-- ===== src/Mqp/Fragment.antt =====
-- src/mqp/fragment.rs: the limits of fragmentation that every wire format shares.
use my_quic.Common.{ℕ}

abbrev pub mqp_frag_max_payload : ℕ
mqp_frag_max_payload = 8192

abbrev pub mqp_frag_max_total : ℕ
mqp_frag_max_total = 64

abbrev pub frag_timeout_ms : ℕ
frag_timeout_ms = 2000

abbrev pub frag_max_held_bytes : ℕ
frag_max_held_bytes = 262144

abbrev pub frag_max_partials : ℕ
frag_max_partials = 256
