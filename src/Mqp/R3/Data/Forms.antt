-- ===== src/Mqp/R3/Data/Forms.antt =====
-- src/mqp/r3.rs: the forms of a `DATA` frame together, each with its encoder.
use my_quic.Common.{ℕ, ◌^◌, ◌≤◌, ◌<◌, ◌≡◌, Bool, true, false, Option, none, some, length}
use my_quic.Common.Bytes.{Bytes}
use my_quic.Mqp.Error.{ok}
use my_quic.Mqp.Addr.{TargetAddrRef, IsAddr, on_wire}
use my_quic.Mqp.R3.Data.{DataRef}
use my_quic.Mqp.R3.Data.Encode.{
  encode_data_steady, encode_data_open, encode_data_src, encode_data_inline,
}
use my_quic.Mqp.R3.Data.Decode.{decode_data}
use my_quic.Mqp.R3.Data.RoundTrip.{
  encode_data_steady-decode_data, encode_data_open-decode_data, encode_data_src-decode_data,
  encode_data_inline-decode_data,
}

pub data DataForm : Type 0 where
  steady : (fid : ℕ) → DataForm
  open_flow : (fid sess : ℕ) → TargetAddrRef → (src : Bool) → DataForm
  source : (fid : ℕ) → TargetAddrRef → DataForm
  inline : (sess : ℕ) → TargetAddrRef → DataForm

abbrev pub encode_data_form : DataForm → Bytes → ℕ → Option Bytes
encode_data_form (steady fid) payload limit = encode_data_steady fid payload limit
encode_data_form (open_flow fid sess addr src) payload limit =
    encode_data_open fid sess addr src payload limit
encode_data_form (source fid addr) payload limit = encode_data_src fid addr payload limit
encode_data_form (inline sess addr) payload limit = encode_data_inline sess addr payload limit

-- A 32-bit session, and a well-formed address.
abbrev pub IsDataForm : DataForm → Type 0
IsDataForm (steady fid) = Unit
IsDataForm (open_flow fid sess addr src) = (sess < 2 ^ 32) × IsAddr addr
IsDataForm (source fid addr) = IsAddr addr
IsDataForm (inline sess addr) = (sess < 2 ^ 32) × IsAddr addr

-- The fields that the receiver is to read.
abbrev pub data_fields : DataForm → Bytes → DataRef
data_fields (steady f) p = (record {
  fid = some f;
  sess = none;
  addr = none;
  src = false;
  payload = p;
})
data_fields (open_flow f s a side) p = (record {
  fid = some f;
  sess = some s;
  addr = some (on_wire a);
  src = side;
  payload = p;
})
data_fields (source f a) p = (record {
  fid = some f;
  sess = none;
  addr = some (on_wire a);
  src = true;
  payload = p;
})
data_fields (inline s a) p = (record {
  fid = none;
  sess = some s;
  addr = some (on_wire a);
  src = false;
  payload = p;
})

-- A `DATA` frame that the encoder of any form wrote, from a 32-bit session and a well-formed address
-- where the form has them, fits the limit and decodes to exactly the fields of the form: its flow id,
-- session and side, the address as the wire keeps it, and the payload.
pub encode_data_form-decode_data :
    (f : DataForm) (payload : Bytes) (limit : ℕ) (b : Bytes)
    → IsDataForm f
    → encode_data_form f payload limit ≡ some b
    → (length b ≤ limit) × (decode_data b ≡ ok (data_fields f payload))
encode_data_form-decode_data (steady fid) payload limit b v e =
    encode_data_steady-decode_data fid limit payload b e
encode_data_form-decode_data (open_flow fid sess addr src) payload limit b v e =
    encode_data_open-decode_data fid sess limit addr src payload b v.0 v.1 e
encode_data_form-decode_data (source fid addr) payload limit b v e =
    encode_data_src-decode_data fid limit addr payload b v e
encode_data_form-decode_data (inline sess addr) payload limit b v e =
    encode_data_inline-decode_data sess limit addr payload b v.0 v.1 e
