-- ===== src/Mqp/R3/Ctl.antt =====
-- src/mqp/r3.rs, the control messages: `type:u8 | len:u16le | body`.
pub mod RoundTrip
pub mod Canonical
use my_quic.Common.{
  ℕ, ◌+◌, ◌≤◌, ◌<◌, ◌^◌, Bool, true, Option, none, some, [], ◌∷◌, ◌++◌, leb, ◌==◌, if◌then◌else◌,
  length, take, drop,
}
use my_quic.Common.Bytes.{Bytes, from_le, index, u16_le, u32_le}
use my_quic.Mqp.Error.{malformed, Result, ok, err, guard, ◌>>=◌, ◌>>◌}
use my_quic.Mqp.R3.Frame.{max_ctl_body}
use my_quic.Mqp.R3.Fid.{valid_fid}

abbrev pub ctl_assoc_close : ℕ
ctl_assoc_close = 0x01

abbrev pub ctl_flow_close : ℕ
ctl_flow_close = 0x02

abbrev pub ctl_reject : ℕ
ctl_reject = 0x81

abbrev pub ctl_need_context : ℕ
ctl_need_context = 0x82

abbrev pub ctl_sess_close : ℕ
ctl_sess_close = 0x83

abbrev pub ctl_goaway : ℕ
ctl_goaway = 0x84

-- Session or flow id, then the reason where there is one.
pub data CtlMessage : Type 0 where
  assoc_close flow_close reject sess_close : ℕ → ℕ → CtlMessage
  need_context : ℕ → CtlMessage
  goaway : CtlMessage

unfoldable pub msg_type : CtlMessage → ℕ
msg_type (assoc_close sess reason) = ctl_assoc_close
msg_type (flow_close fid reason) = ctl_flow_close
msg_type (reject fid reason) = ctl_reject
msg_type (need_context fid) = ctl_need_context
msg_type (sess_close sess reason) = ctl_sess_close
msg_type goaway = ctl_goaway

unfoldable pub body_len : CtlMessage → ℕ
body_len (assoc_close sess reason) = 5
body_len (sess_close sess reason) = 5
body_len (flow_close fid reason) = 3
body_len (reject fid reason) = 3
body_len (need_context fid) = 2
body_len goaway = 0

unfoldable pub len : CtlMessage → ℕ
unfolding body_len
len m = 3 + body_len m

fid_in_range : CtlMessage → Bool
fid_in_range (flow_close fid reason) = valid_fid fid
fid_in_range (reject fid reason) = valid_fid fid
fid_in_range (need_context fid) = valid_fid fid
fid_in_range _ = true

ctl_body : CtlMessage → Bytes
ctl_body (assoc_close sess reason) = u32_le sess ++ reason ∷ []
ctl_body (sess_close sess reason) = u32_le sess ++ reason ∷ []
ctl_body (flow_close fid reason) = u16_le fid ++ reason ∷ []
ctl_body (reject fid reason) = u16_le fid ++ reason ∷ []
ctl_body (need_context fid) = u16_le fid
ctl_body goaway = []

unfoldable pub encode_ctl_message : CtlMessage → Option Bytes
unfolding msg_type body_len fid_in_range ctl_body
encode_ctl_message m =
    if fid_in_range m then some (msg_type m ∷ (u16_le (body_len m) ++ ctl_body m)) else none

ctl_sess_reason : Bytes → Result (ℕ × ℕ)
ctl_sess_reason body = do
  guard (length body == 5) (malformed "bad r3 ctl body len")
  ok (from_le (take 4 body), index body 4)

ctl_fid_reason : Bytes → Result (ℕ × ℕ)
ctl_fid_reason body = do
  guard (length body == 3) (malformed "bad r3 ctl body len")
  let fid = from_le (take 2 body)
  guard (valid_fid fid) (malformed "bad r3 ctl fid")
  ok (fid, index body 2)

ctl_need_fid : Bytes → Result CtlMessage
ctl_need_fid body = do
  guard (length body == 2) (malformed "bad r3 ctl body len")
  let fid = from_le (take 2 body)
  guard (valid_fid fid) (malformed "bad r3 ctl fid")
  ok (need_context fid)

ctl_goaway_body : Bytes → Result CtlMessage
ctl_goaway_body body = do guard (length body == 0) (malformed "bad r3 ctl body len"); ok goaway

with_pair : (ℕ → ℕ → CtlMessage) → Result (ℕ × ℕ) → Result CtlMessage
with_pair make r = do (a, reason) ← r; ok (make a reason)

-- `match ty`
decode_body : ℕ → Bytes → Result CtlMessage
unfolding ctl_sess_reason ctl_fid_reason ctl_need_fid ctl_goaway_body with_pair
decode_body ty body =
    if ty == ctl_assoc_close
    then with_pair assoc_close (ctl_sess_reason body)
    else if ty == ctl_flow_close
    then with_pair flow_close (ctl_fid_reason body)
    else if ty == ctl_reject
    then with_pair reject (ctl_fid_reason body)
    else if ty == ctl_need_context
    then ctl_need_fid body
    else if ty == ctl_sess_close
    then with_pair sess_close (ctl_sess_reason body)
    else if ty == ctl_goaway
    then ctl_goaway_body body
    else err (malformed "bad r3 ctl type")

unfoldable pub decode_ctl_message : Bytes → Result (CtlMessage × ℕ)
unfolding decode_body
decode_ctl_message b = do
  guard (leb 3 (length b)) (malformed "short r3 ctl message")
  let len = from_le (index b 1 ∷ index b 2 ∷ [])
  guard (leb len max_ctl_body) (malformed "r3 ctl body too long")
  guard (leb (3 + len) (length b)) (malformed "truncated r3 ctl body")
  msg ← decode_body (index b 0) (take len (drop 3 b))
  ok (msg, 3 + len)

-- The ranges of the fields: a `u32` session, a `u16` id, a `u8` reason.
abbrev pub IsMessage : CtlMessage → Type 0
IsMessage (assoc_close sess reason) = (sess < 2 ^ 32) × (reason < 256)
IsMessage (sess_close sess reason) = (sess < 2 ^ 32) × (reason < 256)
IsMessage (flow_close fid reason) = (fid < 65536) × (reason < 256)
IsMessage (reject fid reason) = (fid < 65536) × (reason < 256)
IsMessage (need_context fid) = fid < 65536
IsMessage goaway = Unit {0}
