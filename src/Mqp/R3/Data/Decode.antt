-- ===== src/Mqp/R3/Data/Decode.antt =====
-- src/mqp/r3.rs: the `DATA` decoder, one function for each arm. A view `&b[off..]` is `drop off b`.
use my_quic.Common.{
  ℕ, ◌+◌, ◌*◌, Bool, true, false, ◌||◌, none, some, ◌==◌, if◌then◌else◌, drop, get_elem?, bit_and,
  bit_or,
}
use my_quic.Common.Bytes.{Bytes}
use my_quic.Mqp.Error.{malformed, Result, ok, err, ok_or, guard, ◌>>=◌, ◌>>◌}
use my_quic.Mqp.Addr.{decode}
use my_quic.Mqp.R3.Frame.{
  class_mask, class_data, class_data_ext, form_open, form_src, form_open_src, form_inline,
}
use my_quic.Mqp.R3.Fid.{client, server, valid_fid, require_fid_owner}
use my_quic.Mqp.R3.Field.{get_u16, get_u32, ext_flags}
use my_quic.Mqp.R3.Data.{DataRef}

unfoldable pub decode_data_steady : Bytes → ℕ → Result DataRef
decode_data_steady b b0 = do
  b1 ← ok_or (get_elem? b 1) (malformed "short r3 data")
  ok (record {
    fid = some (bit_or (bit_and b0 0x3F * 256) b1);
    sess = none;
    addr = none;
    src = false;
    payload = drop 2 b;
  })

unfoldable pub decode_data_open : Bytes → Bool → Result DataRef
decode_data_open b src = do
  (fid, off₁) ← get_u16 b 1
  require_fid_owner fid (if src then server else client) "r3 data open fid owner"
  (sess, off₂) ← get_u32 b off₁
  (addr, n) ← decode (drop off₂ b)
  ok (record {
    fid = some fid;
    sess = some sess;
    addr = some addr;
    src = src;
    payload = drop (off₂ + n) b;
  })

unfoldable pub decode_data_src : Bytes → Result DataRef
decode_data_src b = do
  (fid, off₁) ← get_u16 b 1
  guard (valid_fid fid) (malformed "bad r3 data fid")
  (addr, n) ← decode (drop off₁ b)
  ok (record {
    fid = some fid;
    sess = none;
    addr = some addr;
    src = true;
    payload = drop (off₁ + n) b;
  })

unfoldable pub decode_data_inline : Bytes → Result DataRef
decode_data_inline b = do
  (sess, off₁) ← get_u32 b 1
  (addr, n) ← decode (drop off₁ b)
  ok (record {
    fid = none;
    sess = some sess;
    addr = some addr;
    src = false;
    payload = drop (off₁ + n) b;
  })

unfoldable pub decode_data_form : Bytes → ℕ → Result DataRef
decode_data_form b flags =
    if flags == form_open || flags == form_open_src
    then decode_data_open b (flags == form_open_src)
    else if flags == form_src
    then decode_data_src b
    else if flags == form_inline
    then decode_data_inline b
    else err (malformed "bad r3 data flags")

unfoldable pub decode_data_ext : Bytes → ℕ → Result DataRef
unfolding decode_data_form
decode_data_ext b b0 = do flags ← ext_flags b0 "bad r3 data reserved"; decode_data_form b flags

unfoldable pub decode_data : Bytes → Result DataRef
decode_data b = do
  b0 ← ok_or (get_elem? b 0) (malformed "empty r3 frame")
  let class = bit_and b0 class_mask
  if class == class_data
      then decode_data_steady b b0
      else if class == class_data_ext
      then decode_data_ext b b0
      else err (malformed "bad r3 data kind")
