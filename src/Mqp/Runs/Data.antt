-- ===== src/Mqp/Runs/Data.antt =====
-- `DATA` frames on concrete bytes.
use my_quic.Common.{◌≤◌, ◌≡◌, refl, true, false, none, some, [], ◌∷◌, arith, length}
use my_quic.Common.Bytes.{Bytes}
use my_quic.Mqp.Error.{ok}
use my_quic.Mqp.Addr.{TargetAddrRef, v4, ip, header, encode_into, is_unspecified}
use my_quic.Mqp.R3.Field.{put_addr}
use my_quic.Mqp.R3.Data.{DataRef}
use my_quic.Mqp.R3.Data.Encode.{
  encode_data_steady, encode_data_open, encode_data_src, encode_data_inline,
}
use my_quic.Mqp.R3.Data.Decode.{decode_data}
use my_quic.Mqp.R3.Data.RoundTrip.{
  encode_data_steady-decode_data, encode_data_open-decode_data, encode_data_src-decode_data,
  encode_data_inline-decode_data,
}
use my_quic.Mqp.R3.Data.Forms.{DataForm, encode_data_form-decode_data}
use my_quic.Mqp.R3.Data.Canonical.{reencode}
use my_quic.Mqp.R3.Data.Reencode.{decode_data-reencode}

abbrev target : TargetAddrRef
target = ip (v4 (10 ∷ 0 ∷ 0 ∷ 1 ∷ []) 53)

steady : encode_data_steady 0x1234 (7 ∷ []) 1472 ≡ some (0x12 ∷ 0x34 ∷ 7 ∷ [])
unfolding encode_data_steady
steady = refl

steady_read :
    (3 ≤ 1472)
    × (decode_data (0x12 ∷ 0x34 ∷ 7 ∷ [])
        ≡ ok
            (record { fid = some 0x1234; sess = none; addr = none; src = false; payload = 7 ∷ [] }))
steady_read = encode_data_steady-decode_data 0x1234 1472 (7 ∷ []) _ steady

abbrev open_frame : Bytes
open_frame = 0x41 ∷ 5 ∷ 0 ∷ 9 ∷ 0 ∷ 0 ∷ 0 ∷ 1 ∷ 10 ∷ 0 ∷ 0 ∷ 1 ∷ 0 ∷ 53 ∷ 7 ∷ []

abbrev open_data : DataRef
open_data = record {
  fid = some 5;
  sess = some 9;
  addr = some target;
  src = false;
  payload = 7 ∷ [];
}

opened : encode_data_open 5 9 target false (7 ∷ []) 1472 ≡ some open_frame
unfolding encode_data_open header put_addr encode_into is_unspecified
opened = refl

open_read : (length open_frame ≤ 1472) × (decode_data open_frame ≡ ok open_data)
open_read =
    encode_data_open-decode_data 5 9 1472 target false (7 ∷ []) open_frame (omega arith)
      (omega arith) opened

abbrev src_frame : Bytes
src_frame = 0x42 ∷ 5 ∷ 0 ∷ 1 ∷ 10 ∷ 0 ∷ 0 ∷ 1 ∷ 0 ∷ 53 ∷ 7 ∷ []

rebound : encode_data_src 5 target (7 ∷ []) 1472 ≡ some src_frame
unfolding encode_data_src header put_addr encode_into is_unspecified
rebound = refl

src_read :
    (length src_frame ≤ 1472)
    × (decode_data src_frame
        ≡ ok (record {
          fid = some 5;
          sess = none;
          addr = some target;
          src = true;
          payload = 7 ∷ [];
        }))
src_read = encode_data_src-decode_data 5 1472 target (7 ∷ []) src_frame (omega arith) rebound

abbrev inline_frame : Bytes
inline_frame = 0x44 ∷ 9 ∷ 0 ∷ 0 ∷ 0 ∷ 1 ∷ 10 ∷ 0 ∷ 0 ∷ 1 ∷ 0 ∷ 53 ∷ 7 ∷ []

inlined : encode_data_inline 9 target (7 ∷ []) 1472 ≡ some inline_frame
unfolding encode_data_inline header put_addr encode_into is_unspecified
inlined = refl

inline_read :
    (length inline_frame ≤ 1472)
    × (decode_data inline_frame
        ≡ ok (record {
          fid = none;
          sess = some 9;
          addr = some target;
          src = false;
          payload = 7 ∷ [];
        }))
inline_read =
    encode_data_inline-decode_data 9 1472 target (7 ∷ []) inline_frame (omega arith) (omega arith)
      inlined

decode_data-reencode_example : reencode open_data 15 ≡ some open_frame
decode_data-reencode_example = decode_data-reencode open_frame open_data (omega arith) (
    (encode_data_open-decode_data 5 9 1472 target false (7 ∷ []) open_frame (omega arith)
      (omega arith) opened).1)

encode_data_form-decode_data_example :
    (length open_frame ≤ 1472) × (decode_data open_frame ≡ ok open_data)
encode_data_form-decode_data_example =
    encode_data_form-decode_data (DataForm.open_flow 5 9 target false) (7 ∷ []) 1472 open_frame
      (omega arith) opened
