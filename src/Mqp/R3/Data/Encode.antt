-- ===== src/Mqp/R3/Data/Encode.antt =====
-- src/mqp/r3.rs: the `DATA` encoders. A vector that is filled by pushes is the list of its pieces.
use my_quic.Common.{
  ℕ, ◌/◌, ◌%◌, Bool, Option, ◌≡◌, ◌<◌, true, false, arith, some, ◌∷◌, ◌++◌, leb, if◌then◌else◌,
  length, bit_and, bit_or,
}
use my_quic.Common.Bytes.{Bytes, u16_le, u32_le}
use my_quic.Common.Opt.{◌>>=◌, ◌>>◌, require}
use my_quic.Mqp.Error.{to_option}
use my_quic.Mqp.Addr.{TargetAddrRef, AddrHeader, header}
use my_quic.Mqp.R3.Frame.{class_data_ext, form_open, form_src, form_open_src, form_inline}
use my_quic.Mqp.R3.Fid.{FidOwner, client, server, valid_fid, require_fid_owner, owns}
use my_quic.Mqp.R3.Field.{put_addr}
use my_quic.Mqp.R3.Data.{data_steady_len, data_open_len, data_src_len, data_inline_len}

-- The owner that the form prescribes.
abbrev pub form_owner : Bool → FidOwner
form_owner src = if src then server else client

unfoldable pub encode_data_steady : ℕ → Bytes → ℕ → Option Bytes
encode_data_steady fid payload limit = do
  require (valid_fid fid)
  require (leb (data_steady_len (length payload)) limit)
  some (bit_and (fid / 256 % 256) 0x3F ∷ (fid % 256) ∷ payload)

unfoldable pub encode_data_open : ℕ → ℕ → TargetAddrRef → Bool → Bytes → ℕ → Option Bytes
encode_data_open fid sess addr src payload limit = do
  to_option (require_fid_owner fid (form_owner src) "r3 data open fid owner")
  h ← to_option (header addr)
  require (leb (data_open_len h.len (length payload)) limit)
  let flags = if src then form_open_src else form_open
  some (bit_or class_data_ext flags ∷ (u16_le fid ++ (u32_le sess ++ (put_addr h ++ payload))))

unfoldable pub encode_data_src : ℕ → TargetAddrRef → Bytes → ℕ → Option Bytes
encode_data_src fid addr payload limit = do
  require (valid_fid fid)
  h ← to_option (header addr)
  require (leb (data_src_len h.len (length payload)) limit)
  some (bit_or class_data_ext form_src ∷ (u16_le fid ++ (put_addr h ++ payload)))

unfoldable pub encode_data_inline : ℕ → TargetAddrRef → Bytes → ℕ → Option Bytes
encode_data_inline sess addr payload limit = do
  h ← to_option (header addr)
  require (leb (data_inline_len h.len (length payload)) limit)
  some (bit_or class_data_ext form_inline ∷ (u32_le sess ++ (put_addr h ++ payload)))

-- The `OPEN` and `OPEN_SRC` frames as bytes.
abbrev pub open_bytes : ℕ → ℕ → AddrHeader → Bool → Bytes → Bytes
open_bytes fid sess h src payload =
    bit_or 0x40 (if src then 0x03 else 0x01)
    ∷ (u16_le fid ++ (u32_le sess ++ (put_addr h ++ payload)))

pub owns_valid : (src : Bool) (fid : ℕ) → owns (form_owner src) fid ≡ true → fid < 16384
owns_valid true fid h = ground arith
owns_valid false fid h = ground arith
