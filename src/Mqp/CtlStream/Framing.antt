-- ===== src/Mqp/CtlStream/Framing.antt =====
-- src/mqp/ctl_stream.rs, `decode_message`: a message is recognised exactly when its last byte is in.
use my_quic.Common.{
  ℕ, suc, ◌+◌, ◌/◌, ◌%◌, ◌≤◌, ◌<◌, ◌≡◌, refl, ap, sym, ◌∙◌, none, some, [], ◌∷◌, ◌++◌, arith,
  length, take, le→leb, lt→ltb, le→not-ltb, eq→==, length-append, take-append_left, append-nil,
}
use my_quic.Common.Bytes.{Bytes, from_le}
use my_quic.Mqp.Error.{ok}
use my_quic.Mqp.R3.Ctl.{CtlMessage, IsMessage, decode_ctl_message, body_len, msg_type}
use my_quic.Mqp.R3.Ctl.RoundTrip.{encode_ctl_message-decode_ctl_message, encode_ctl_message-Shape}
use my_quic.Mqp.CtlStream.{decode_message, framed, encode_message}

length_field : (k : ℕ) → k ≤ 5 → from_le ((k % 256) ∷ (k / 256 % 256) ∷ []) ≡ k
length_field k h = omega arith

decode_message_short : (buf : Bytes) → length buf < 3 → decode_message buf ≡ ok none
unfolding decode_message
decode_message_short buf h = rw (lt→ltb (length buf) 3 h)

decode_message-framed :
    (ty l0 l1 : ℕ) (rest : Bytes)
    → decode_message (ty ∷ l0 ∷ l1 ∷ rest) ≡ framed (ty ∷ l0 ∷ l1 ∷ rest) (from_le (l0 ∷ l1 ∷ []))
unfolding decode_message
decode_message-framed ty l0 l1 rest =
    rw (le→not-ltb (suc (suc (suc (length rest)))) 3 (omega arith))

framed_wait : (buf : Bytes) (k : ℕ) → k ≤ 64 → length buf < 3 + k → framed buf k ≡ ok none
unfolding framed
framed_wait buf k hk h = rw (le→leb k 64 hk, lt→ltb (length buf) (3 + k) h)

framed_whole :
    (buf : Bytes) (k : ℕ) (m : CtlMessage)
    → k ≤ 64
    → 3 + k ≤ length buf
    → decode_ctl_message (take (3 + k) buf) ≡ ok (m, 3 + k)
    → framed buf k ≡ ok (some (m, 3 + k))
unfolding framed
framed_whole buf k m hk h e =
    rw (le→leb k 64 hk, le→not-ltb (length buf) (3 + k) h, e, eq→== (3 + k) (3 + k) refl)

decode_message_at :
    (buf : Bytes) (ty l0 l1 k : ℕ) (rest : Bytes)
    → buf ≡ ty ∷ l0 ∷ l1 ∷ rest
    → from_le (l0 ∷ l1 ∷ []) ≡ k
    → decode_message buf ≡ framed buf k
decode_message_at buf ty l0 l1 k rest e h =
    rw e (decode_message-framed ty l0 l1 rest ∙ ap (framed (ty ∷ l0 ∷ l1 ∷ rest)) h)

decode_message_whole :
    (m : CtlMessage) (w rest : Bytes)
    → IsMessage m
    → encode_message m ≡ some w
    → decode_message (w ++ rest) ≡ ok (some (m, length w))
decode_message_whole m w rest v e =
    let s = encode_ctl_message-Shape m w e in
    let k = body_len m in
    let (ed, _) = encode_ctl_message-decode_ctl_message m w [] v e in
    let el : length w ≡ 3 + k = omega (arith, ap length s.bytes, s.body_length) in
    let et : take (3 + k) (w ++ rest) ≡ w = take-append_left (3 + k) w rest (omega arith) in
    let ec : decode_ctl_message (take (3 + k) (w ++ rest)) ≡ ok (m, 3 + k) =
      ap decode_ctl_message et
      ∙ ap decode_ctl_message (sym (append-nil w))
      ∙ ed
      ∙ ap (λ n. ok (m, n)) s.total in
    decode_message_at (w ++ rest) (msg_type m) _ _ k (s.body ++ rest) (ap (λ v. v ++ rest) s.bytes)
      (length_field k s.small)
    ∙ framed_whole (w ++ rest) k m (omega (arith, s.small)) (omega (arith, length-append w rest)) ec
    ∙ ap (λ n. ok (some (m, n))) (sym el)

decode_message_partial :
    (m : CtlMessage) (w p q : Bytes) (x : ℕ)
    → encode_message m ≡ some w
    → w ≡ p ++ x ∷ q
    → decode_message p ≡ ok none
decode_message_partial m w [] q x e h = decode_message_short [] (omega arith)
decode_message_partial m w (a ∷ []) q x e h = decode_message_short (a ∷ []) (omega arith)
decode_message_partial m w (a ∷ b ∷ []) q x e h = decode_message_short (a ∷ b ∷ []) (omega arith)
decode_message_partial m w (a ∷ b ∷ c ∷ p) q x e h =
    let s = encode_ctl_message-Shape m w e in
    let same : msg_type m ∷ (body_len m % 256) ∷ (body_len m / 256 % 256) ∷ s.body
        ≡ a ∷ b ∷ c ∷ (p ++ x ∷ q) =
      cc (s.bytes, h) in
    let eb : b ≡ body_len m % 256 = cc in
    let ec : c ≡ body_len m / 256 % 256 = cc in
    let el : s.body ≡ p ++ x ∷ q = cc in
    let l : length p < body_len m =
      omega (arith, ap length el, length-append p (x ∷ q), s.body_length) in
    decode_message-framed a b c p
    ∙ framed_wait (a ∷ b ∷ c ∷ p) (from_le (b ∷ c ∷ [])) (omega (arith, s.small))
        (omega (arith, s.small))

-- Of a message whose fields are in range, the reader takes its encoding as that message and consumes
-- just that, whatever follows it; and from a proper prefix of an encoding it waits for more: no error
-- and no message.
pub decode_message_stream :
    (m : CtlMessage) (w : Bytes)
    → IsMessage m
    → encode_message m ≡ some w
    → ((rest : Bytes) → decode_message (w ++ rest) ≡ ok (some (m, length w)))
      × ((p q : Bytes) (x : ℕ) → w ≡ p ++ x ∷ q → decode_message p ≡ ok none)
decode_message_stream m w v e =
    (λ rest. decode_message_whole m w rest v e, λ p q x cut. decode_message_partial m w p q x e cut)
