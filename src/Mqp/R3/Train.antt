-- ===== src/Mqp/R3/Train.antt =====
-- src/mqp/r3.rs, `TRAIN`: several payloads in one frame, of one flow or of a dictionary of flows.
pub mod Encode
pub mod Decode
pub mod Items
pub mod Length
pub mod Walk
pub mod Shift
pub mod Yields
pub mod Delivered
pub mod Writes
pub mod Same
pub mod Encodable
pub mod Equal
pub mod Dict
use my_quic.Common.{ℕ, List}
use my_quic.Common.Bytes.{Bytes}

-- `flows` holds the entries of the source's array that are in use.
pub record TrainFrame : Type 0 where
  pub form : ℕ
  pub count : ℕ
  pub nfl : ℕ
  pub item_len : ℕ
  pub flows : List ℕ
  pub items : Bytes
