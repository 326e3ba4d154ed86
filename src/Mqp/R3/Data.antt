-- ===== src/Mqp/R3/Data.antt =====
-- src/mqp/r3.rs, `DATA`: the steady frame and the four extended forms.
pub mod Encode
pub mod Decode
pub mod RoundTrip
pub mod Forms
pub mod Canonical
pub mod Reencode
use my_quic.Common.{ℕ, ◌+◌, Bool, Option}
use my_quic.Common.Bytes.{Bytes}
use my_quic.Mqp.Addr.{TargetAddrRef}

pub record DataRef : Type 0 where
  pub fid : Option ℕ
  pub sess : Option ℕ
  pub addr : Option TargetAddrRef
  pub src : Bool
  pub payload : Bytes

abbrev pub data_steady_len : ℕ → ℕ
data_steady_len payload_len = 2 + payload_len

abbrev pub data_open_len : ℕ → ℕ → ℕ
data_open_len addr_len payload_len = 7 + addr_len + payload_len

abbrev pub data_src_len : ℕ → ℕ → ℕ
data_src_len addr_len payload_len = 3 + addr_len + payload_len

abbrev pub data_inline_len : ℕ → ℕ → ℕ
data_inline_len addr_len payload_len = 5 + addr_len + payload_len
