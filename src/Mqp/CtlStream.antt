-- ===== src/Mqp/CtlStream.antt =====
-- src/mqp/ctl_stream.rs: the control stream's first byte, its incremental framing, and the
-- receiver's rate budget.
pub mod Framing
pub mod Rate
pub mod Classify
use my_quic.Common.{
  ℕ, ◌+◌, ◌-◌, Bool, true, false, ◌||◌, Option, none, some, [], ◌∷◌, leb, ltb, ◌==◌, if◌then◌else◌,
  length, take,
}
use my_quic.Common.Bytes.{Bytes, from_le, index}
use my_quic.Mqp.Error.{malformed, Result, ok, err, guard, ◌>>=◌, ◌>>◌}
use my_quic.Mqp.R3.Frame.{max_ctl_body}
use my_quic.Mqp.R3.Ctl.{CtlMessage, encode_ctl_message, decode_ctl_message}

abbrev pub marker : ℕ
marker = 0xFF

abbrev pub max_ctl_message : ℕ
max_ctl_message = max_ctl_body

abbrev pub max_ctl_frame_overhead : ℕ
max_ctl_frame_overhead = 3

pub data StreamClass : Type 0 where
  control : StreamClass
  tcp : ℕ → StreamClass

unfoldable pub classify_first_byte : ℕ → Option StreamClass
classify_first_byte first =
    if first == marker
    then some control
    else if first == 0x01 || (first == 0x03 || first == 0x04)
    then some (tcp first)
    else none

abbrev pub encode_message : CtlMessage → Option Bytes
encode_message = encode_ctl_message

complete : Bytes → ℕ → Result (Option (CtlMessage × ℕ))
complete buf total = do
  (msg, consumed) ← decode_ctl_message (take total buf)
  guard (consumed == total) (malformed "r3 ctl message length mismatch")
  ok (some (msg, total))

framed : Bytes → ℕ → Result (Option (CtlMessage × ℕ))
unfolding complete
framed buf body_len = do
  guard (leb body_len max_ctl_message) (malformed "r3 ctl message body too long")
  if ltb (length buf) (max_ctl_frame_overhead + body_len)
      then ok none
      else complete buf (max_ctl_frame_overhead + body_len)

unfoldable pub decode_message : Bytes → Result (Option (CtlMessage × ℕ))
unfolding framed
decode_message buf =
    if ltb (length buf) max_ctl_frame_overhead
    then ok none
    else framed buf (from_le (index buf 1 ∷ index buf 2 ∷ []))

pub record CtlRate : Type 0 where
  pub window_ms : ℕ
  pub max_per_sec : ℕ
  pub count : ℕ

unfoldable pub new : ℕ → CtlRate
new max_per_sec = record { window_ms = 0; max_per_sec = max_per_sec; count = max_per_sec }

unfoldable pub default_budget : CtlRate
unfolding new
default_budget = new 4096

-- The window that the call works in: `saturating_sub` is `-` on ℕ.
refill : CtlRate → ℕ → CtlRate
refill r now_ms =
    if leb 1000 (now_ms - r.window_ms)
    then record r { window_ms = now_ms; count = r.max_per_sec }
    else r

spend : CtlRate → Bool × CtlRate
spend r = if r.count == 0 then (false, r) else (true, record r { count = r.count - 1 })

unfoldable pub allow : CtlRate → ℕ → Bool × CtlRate
unfolding refill spend
allow r now_ms = spend (refill r now_ms)
