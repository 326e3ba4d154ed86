-- ===== src/Mqp/R3/Frag.antt =====
-- src/mqp/r3.rs, `FRAG`: one fragment of a datagram, steady or with its binding context.
pub mod Encode
pub mod Decode
pub mod Forms
pub mod RoundTrip
pub mod Kinds
pub mod Bounds
use my_quic.Common.{ℕ, ◌+◌, Bool, ◌&&◌, Option, leb, ltb, ◌!=◌, length}
use my_quic.Common.Bytes.{Bytes}
use my_quic.Mqp.Addr.{TargetAddrRef}
use my_quic.Mqp.R3.Frame.{max_frag_total, max_frag_bytes}

pub record FragRef : Type 0 where
  pub fid : Option ℕ
  pub sess : Option ℕ
  pub addr : Option TargetAddrRef
  pub src : Bool
  pub frag_id : ℕ
  pub idx : ℕ
  pub total : ℕ
  pub chunk_off : ℕ
  pub chunk : Bytes

abbrev pub frag_steady_len : ℕ → ℕ
frag_steady_len chunk_len = 9 + chunk_len

abbrev pub frag_open_len : ℕ → ℕ → ℕ
frag_open_len addr_len chunk_len = 13 + addr_len + chunk_len

abbrev pub frag_src_len : ℕ → ℕ → ℕ
frag_src_len addr_len chunk_len = 9 + addr_len + chunk_len

abbrev pub frag_inline_len : ℕ → ℕ → ℕ
frag_inline_len addr_len chunk_len = 11 + addr_len + chunk_len

unfoldable pub frag_meta_ok : ℕ → ℕ → Bytes → Bool
frag_meta_ok idx total chunk =
    (leb 1 total && leb total max_frag_total)
    && (ltb idx total && (length chunk != 0 && leb (length chunk) max_frag_bytes))
