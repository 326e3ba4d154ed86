-- ===== src/Mqp/R3/Ctl/Canonical.antt =====
-- src/mqp/r3.rs: the converse. A control message that is accepted was written by the encoder.
use my_quic.Common.{
  ℕ, suc, ◌+◌, ◌*◌, ◌/◌, ◌%◌, ◌≤◌, ◌<◌, ◌≡◌, refl, true, some, [], ◌∷◌, ◌++◌, arith, leb, length,
  take, length-take, All-take, ◌^◌, leb→le,
}
use my_quic.Common.Bytes.{Bytes, IsBytes, IsByte, index, from_le, u16_le, u32_le}
use my_quic.Mqp.Error.{ok, >>=-eq-ok, guard, guard_inv, ok_injective, malformed}
use my_quic.Mqp.R3.Fid.{valid_fid}
use my_quic.Mqp.R3.Ctl.{
  CtlMessage, assoc_close, flow_close, reject, sess_close, need_context, goaway, len, IsMessage,
  encode_ctl_message, decode_ctl_message, decode_body, ctl_sess_reason, ctl_fid_reason, ctl_body,
  msg_type, body_len, fid_in_range,
}

-- A body that was parsed as `m`: it is what the encoder writes, and it fixes its length.
record Parsed (ty : ℕ) (body : Bytes) (m : CtlMessage) : Type 0 where
  type_eq : ty ≡ msg_type m
  body_eq : body ≡ ctl_body m
  len_eq : length body ≡ body_len m
  in_range : fid_in_range m ≡ true
  is_message : IsMessage m

five_bytes :
    (body : Bytes)
    → IsBytes body
    → length body ≡ 5
    → (from_le (take 4 body) < 2 ^ 32)
      × (index body 4 < 256)
      × (body ≡ u32_le (from_le (take 4 body)) ++ index body 4 ∷ [])
five_bytes [] hb h = absurd (omega arith)
five_bytes (x ∷ []) hb h = absurd (omega arith)
five_bytes (x ∷ y ∷ []) hb h = absurd (omega arith)
five_bytes (x ∷ y ∷ z ∷ []) hb h = absurd (omega arith)
five_bytes (x ∷ y ∷ z ∷ w ∷ []) hb h = absurd (omega arith)
five_bytes (x ∷ y ∷ z ∷ w ∷ r ∷ []) (hx, (hy, (hz, (hw, (hr, _))))) h =
    (omega arith, hr, ground arith)
five_bytes (x ∷ y ∷ z ∷ w ∷ r ∷ s ∷ t) hb h = absurd (omega arith)

three_bytes :
    (body : Bytes)
    → IsBytes body
    → length body ≡ 3
    → (from_le (take 2 body) < 65536)
      × (index body 2 < 256)
      × (body ≡ u16_le (from_le (take 2 body)) ++ index body 2 ∷ [])
three_bytes [] hb h = absurd (omega arith)
three_bytes (x ∷ []) hb h = absurd (omega arith)
three_bytes (x ∷ y ∷ []) hb h = absurd (omega arith)
three_bytes (x ∷ y ∷ r ∷ []) (hx, (hy, (hr, _))) h = (omega arith, hr, ground arith)
three_bytes (x ∷ y ∷ z ∷ w ∷ s) hb h = absurd (omega arith)

two_bytes :
    (body : Bytes)
    → IsBytes body
    → length body ≡ 2
    → (from_le (take 2 body) < 65536) × (body ≡ u16_le (from_le (take 2 body)))
two_bytes [] hb h = absurd (omega arith)
two_bytes (x ∷ []) hb h = absurd (omega arith)
two_bytes (x ∷ y ∷ []) (hx, (hy, _)) h = (omega arith, ground arith)
two_bytes (x ∷ y ∷ z ∷ s) hb h = absurd (omega arith)

no_bytes : (body : Bytes) → length body ≡ 0 → body ≡ []
no_bytes [] h = refl
no_bytes (x ∷ b) h = absurd (omega arith)

sess_reason_inv :
    (body : Bytes) (sess reason : ℕ)
    → IsBytes body
    → ctl_sess_reason body ≡ ok (sess, reason)
    → (sess < 2 ^ 32) × (reason < 256) × (body ≡ u32_le sess ++ reason ∷ []) × (length body ≡ 5)
unfolding ctl_sess_reason
sess_reason_inv body sess reason hb e =
    let l : length body ≡ 5 = ground arith in
    let (h₁, h₂, h₃) = five_bytes body hb l in
    let e₁ : sess ≡ from_le (take 4 body) = ground arith in
    let e₂ : reason ≡ index body 4 = ground arith in (omega arith, omega arith, cc, l)

fid_reason_inv :
    (body : Bytes) (fid reason : ℕ)
    → IsBytes body
    → ctl_fid_reason body ≡ ok (fid, reason)
    → (fid < 65536)
      × (reason < 256)
      × (body ≡ u16_le fid ++ reason ∷ [])
      × (length body ≡ 3)
      × (valid_fid fid ≡ true)
unfolding ctl_fid_reason
fid_reason_inv body fid reason hb e =
    let l : length body ≡ 3 = ground arith in
    let (h₁, h₂, h₃) = three_bytes body hb l in
    let e₁ : fid ≡ from_le (take 2 body) = ground arith in
    let e₂ : reason ≡ index body 2 = ground arith in (omega arith, omega arith, cc, l, ground arith)

decode_body-Parsed :
    (ty : ℕ) (body : Bytes) (m : CtlMessage)
    → IsBytes body
    → decode_body ty body ≡ ok m
    → Parsed ty body m
unfolding decode_body msg_type ctl_body body_len fid_in_range
decode_body-Parsed ty body (assoc_close sess reason) hb e =
    let et : ty ≡ 1 = ground arith in
    let er : ctl_sess_reason body ≡ ok (sess, reason) = ground arith in
    let (h₁, h₂, h₃, h₄) = sess_reason_inv body sess reason hb er in
    record { type_eq = et; body_eq = h₃; len_eq = h₄; in_range = refl; is_message = (h₁, h₂) }
decode_body-Parsed ty body (sess_close sess reason) hb e =
    let et : ty ≡ 0x83 = ground arith in
    let er : ctl_sess_reason body ≡ ok (sess, reason) = ground arith in
    let (h₁, h₂, h₃, h₄) = sess_reason_inv body sess reason hb er in
    record { type_eq = et; body_eq = h₃; len_eq = h₄; in_range = refl; is_message = (h₁, h₂) }
decode_body-Parsed ty body (flow_close fid reason) hb e =
    let et : ty ≡ 2 = ground arith in
    let er : ctl_fid_reason body ≡ ok (fid, reason) = ground arith in
    let (h₁, h₂, h₃, h₄, h₅) = fid_reason_inv body fid reason hb er in
    record { type_eq = et; body_eq = h₃; len_eq = h₄; in_range = h₅; is_message = (h₁, h₂) }
decode_body-Parsed ty body (reject fid reason) hb e =
    let et : ty ≡ 0x81 = ground arith in
    let er : ctl_fid_reason body ≡ ok (fid, reason) = ground arith in
    let (h₁, h₂, h₃, h₄, h₅) = fid_reason_inv body fid reason hb er in
    record { type_eq = et; body_eq = h₃; len_eq = h₄; in_range = h₅; is_message = (h₁, h₂) }
decode_body-Parsed ty body (need_context fid) hb e =
    let et : ty ≡ 0x82 = ground arith in
    let l : length body ≡ 2 = ground arith in
    let ef : fid ≡ from_le (take 2 body) = ground arith in
    let hv : valid_fid fid ≡ true = ground arith in
    let (h₁, h₂) = two_bytes body hb l in
    record { type_eq = et; body_eq = cc; len_eq = l; in_range = hv; is_message = omega arith }
decode_body-Parsed ty body goaway hb e =
    let et : ty ≡ 0x84 = ground arith in
    let l : length body ≡ 0 = ground arith in
    record { type_eq = et; body_eq = no_bytes body l; len_eq = l; in_range = refl; is_message = tt }

from_Parsed :
    (ty l0 l1 : ℕ) (rest : Bytes) (m : CtlMessage)
    → IsBytes (ty ∷ l0 ∷ l1 ∷ rest)
    → (k : ℕ) → k ≡ l0 + 256 * (l1 + 256 * 0)
    → k ≤ length rest
    → Parsed ty (take k rest) m
    → (encode_ctl_message m ≡ some (ty ∷ l0 ∷ l1 ∷ take k rest)) × IsMessage m × (3 + k ≡ len m)
unfolding encode_ctl_message len
from_Parsed ty l0 l1 rest m hb k ek hk p =
    let l : k ≡ body_len m = omega (arith, p.len_eq, length-take k rest) in
    let w₀ : body_len m % 256 ≡ l0 = omega arith in
    let w₁ : body_len m / 256 % 256 ≡ l1 = omega arith in
    (rw (p.in_range, w₀, w₁, p.type_eq, p.body_eq), p.is_message, omega arith)

-- For a buffer of bytes that is accepted as a control message, the bytes consumed are the
-- message's encoding and as many as `len` says, they stand in the buffer, and the message's fields
-- are in range.
pub decode_ctl_message-encode_ctl_message :
    (b : Bytes) (m : CtlMessage) (n : ℕ)
    → IsBytes b
    → decode_ctl_message b ≡ ok (m, n)
    → (encode_ctl_message m ≡ some (take n b)) × (n ≤ length b) × IsMessage m × (n ≡ len m)
unfolding decode_ctl_message
decode_ctl_message-encode_ctl_message [] m n hb e = cc
decode_ctl_message-encode_ctl_message (ty ∷ []) m n hb e = cc
decode_ctl_message-encode_ctl_message (ty ∷ l0 ∷ []) m n hb e = cc
decode_ctl_message-encode_ctl_message (ty ∷ l0 ∷ l1 ∷ rest) m n hb e =
    let k = l0 + 256 * (l1 + 256 * 0) in
    let b = ty ∷ l0 ∷ l1 ∷ rest in
    let (u₁, e₁, r₁) =
      >>=-eq-ok (guard (leb 3 (length b)) (malformed "short r3 ctl message")) _ e in
    let (u₂, e₂, r₂) = >>=-eq-ok (guard (leb k 64) (malformed "r3 ctl body too long")) _ r₁ in
    let (u₃, e₃, r₃) =
      >>=-eq-ok (guard (leb (3 + k) (length b)) (malformed "truncated r3 ctl body")) _ r₂ in
    let (m', e₄, r₄) = >>=-eq-ok (decode_body ty (take k rest)) _ r₃ in
    let hk : k ≤ length rest = omega (arith, leb→le (3 + k) (length b) (guard_inv _ _ u₃ e₃)) in
    let p = decode_body-Parsed ty (take k rest) m' (All-take IsByte k rest hb.1.1.1) e₄ in
    let (w, v, l) = from_Parsed ty l0 l1 rest m' hb k refl hk p in
    let em : m' ≡ m = cc (ok_injective r₄) in
    let en : n ≡ suc (suc (suc k)) = ground (arith, ok_injective r₄) in
    rw (← em, en) (w, omega arith, v, omega arith)
