-- ===== src/Mqp/R3/Ctl/RoundTrip.antt =====
-- src/mqp/r3.rs: a control message that was encoded reads back, whatever follows it on the stream.
use my_quic.Common.{◌+◌, ◌≤◌, ◌≡◌, refl, some, ◌∷◌, ◌++◌, arith, length}
use my_quic.Common.Bytes.{Bytes, u16_le, u16_le_lem, u32_le_lem}
use my_quic.Mqp.Error.{ok}
use my_quic.Mqp.R3.Ctl.{
  CtlMessage, assoc_close, flow_close, reject, sess_close, need_context, goaway, len, IsMessage,
  encode_ctl_message, decode_ctl_message, msg_type, body_len, ctl_body,
}

-- A control message with fields in range that was encoded has the length `len` says, and it
-- decodes to itself, consuming that many bytes, whatever follows it.
pub encode_ctl_message-decode_ctl_message :
    (m : CtlMessage) (w rest : Bytes)
    → IsMessage m
    → encode_ctl_message m ≡ some w
    → (decode_ctl_message (w ++ rest) ≡ ok (m, len m)) × (length w ≡ len m)
unfolding encode_ctl_message decode_ctl_message len
encode_ctl_message-decode_ctl_message (assoc_close sess reason) w rest v e =
    ground (arith, u32_le_lem sess)
encode_ctl_message-decode_ctl_message (flow_close fid reason) w rest v e =
    ground (arith, u16_le_lem fid)
encode_ctl_message-decode_ctl_message (reject fid reason) w rest v e =
    ground (arith, u16_le_lem fid)
encode_ctl_message-decode_ctl_message (sess_close sess reason) w rest v e =
    ground (arith, u32_le_lem sess)
encode_ctl_message-decode_ctl_message (need_context fid) w rest v e = ground (arith, u16_le_lem fid)
encode_ctl_message-decode_ctl_message goaway w rest v e = ground arith

-- The bytes of a message: type, length, and a body of that length.
pub record Shape (m : CtlMessage) (w : Bytes) : Type 0 where
  pub body : Bytes
  pub bytes : w ≡ msg_type m ∷ (u16_le (body_len m) ++ body)
  pub body_length : length body ≡ body_len m
  pub small : body_len m ≤ 5
  pub total : len m ≡ 3 + body_len m

length-ctl_body : (m : CtlMessage) → (length (ctl_body m) ≡ body_len m) × (body_len m ≤ 5)
unfolding ctl_body body_len
length-ctl_body (assoc_close sess reason) = omega arith
length-ctl_body (sess_close sess reason) = omega arith
length-ctl_body (flow_close fid reason) = omega arith
length-ctl_body (reject fid reason) = omega arith
length-ctl_body (need_context fid) = omega arith
length-ctl_body goaway = omega arith

encode_bytes :
    (m : CtlMessage) (w : Bytes)
    → encode_ctl_message m ≡ some w
    → w ≡ msg_type m ∷ (u16_le (body_len m) ++ ctl_body m)
unfolding encode_ctl_message
encode_bytes m w e = ground arith

len-body_len : (m : CtlMessage) → len m ≡ 3 + body_len m
unfolding len
len-body_len m = refl

pub encode_ctl_message-Shape :
    (m : CtlMessage) (w : Bytes) → encode_ctl_message m ≡ some w → Shape m w
encode_ctl_message-Shape m w e = record {
  body = ctl_body m;
  bytes = encode_bytes m w e;
  body_length = (length-ctl_body m).0;
  small = (length-ctl_body m).1;
  total = len-body_len m;
}
