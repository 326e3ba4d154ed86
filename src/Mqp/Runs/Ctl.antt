-- ===== src/Mqp/Runs/Ctl.antt =====
-- Control messages, their stream framing and the rate budget on concrete input.
use Prim.Native.Nat.{min}
use my_quic.Common.{
  ℕ, ◌-◌, ◌≤◌, ◌≡◌, refl, true, false, none, some, [], ◌∷◌, ◌++◌, arith, length, ◌==◌,
  if◌then◌else◌,
}
use my_quic.Common.Bytes.{Bytes}
use my_quic.Mqp.Error.{ok}
use my_quic.Mqp.R3.Ctl.{flow_close, IsMessage, encode_ctl_message, decode_ctl_message, len}
use my_quic.Mqp.R3.Ctl.RoundTrip.{encode_ctl_message-decode_ctl_message}
use my_quic.Mqp.R3.Ctl.Canonical.{decode_ctl_message-encode_ctl_message}
use my_quic.Mqp.CtlStream.{decode_message, classify_first_byte, new, allow}
use my_quic.Mqp.CtlStream.Framing.{decode_message_stream}
use my_quic.Mqp.CtlStream.Classify.{Routed, classify_first_byte-Routed}
use my_quic.Mqp.CtlStream.Rate.{run, run_window-allow}

abbrev close_bytes : Bytes
close_bytes = 2 ∷ 3 ∷ 0 ∷ 0x34 ∷ 0x12 ∷ 6 ∷ []

closed : encode_ctl_message (flow_close 0x1234 6) ≡ some close_bytes
unfolding encode_ctl_message
closed = refl

encode_ctl_message-decode_ctl_message_example :
    (decode_ctl_message (close_bytes ++ 9 ∷ [])
      ≡ ok (flow_close 0x1234 6, len (flow_close 0x1234 6)))
    × (length close_bytes ≡ len (flow_close 0x1234 6))
encode_ctl_message-decode_ctl_message_example =
    encode_ctl_message-decode_ctl_message (flow_close 0x1234 6) close_bytes (9 ∷ []) (omega arith)
      closed

read_back : decode_ctl_message (close_bytes ++ 9 ∷ []) ≡ ok (flow_close 0x1234 6, 6)
unfolding decode_ctl_message
read_back = refl

decode_ctl_message-encode_ctl_message_example :
    (encode_ctl_message (flow_close 0x1234 6) ≡ some close_bytes)
    × (6 ≤ length (close_bytes ++ 9 ∷ []))
    × IsMessage (flow_close 0x1234 6)
    × (6 ≡ len (flow_close 0x1234 6))
decode_ctl_message-encode_ctl_message_example =
    decode_ctl_message-encode_ctl_message (close_bytes ++ 9 ∷ []) (flow_close 0x1234 6) 6
      (omega arith) read_back

decode_message_stream_example :
    ((rest : Bytes) → decode_message (close_bytes ++ rest) ≡ ok (some (flow_close 0x1234 6, 6)))
    × ((p q : Bytes) (x : ℕ) → close_bytes ≡ p ++ x ∷ q → decode_message p ≡ ok none)
decode_message_stream_example =
    decode_message_stream (flow_close 0x1234 6) close_bytes (omega arith) closed

classify_first_byte-Routed_example : Routed 0xFF [] (classify_first_byte 0xFF)
classify_first_byte-Routed_example = classify_first_byte-Routed 0xFF []

run_window-allow_example :
    ((run (new 2) (5 ∷ 6 ∷ 7 ∷ [])).0 ≡ min 3 (new 2).count)
    × ((run (new 2) (5 ∷ 6 ∷ 7 ∷ [])).1 ≡ record (new 2) { count = (new 2).count - 3 })
    × ((allow (run (new 2) (5 ∷ 6 ∷ 7 ∷ [])).1 1000).0
        ≡ (if (new 2).max_per_sec == 0 then false else true))
    × ((allow (run (new 2) (5 ∷ 6 ∷ 7 ∷ [])).1 1000).1
        ≡ record (new 2) { window_ms = 1000; count = (new 2).max_per_sec - 1 })
unfolding new
run_window-allow_example =
    run_window-allow (5 ∷ 6 ∷ 7 ∷ []) (new 2) 1000 (omega arith) (omega arith)
