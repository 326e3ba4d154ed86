-- ===== src/Mqp/Addr/Laws.antt =====
-- src/mqp/addr.rs: the encoder, the measured header and the in-place writer agree.
use my_quic.Common.{
  ℕ, ◌≡◌, sym, inl, inr, [], ◌++◌, arith, length, replicate, length-append, length-replicate,
  append_assoc, append-nil, All-append, Bool-cases, ◌==◌, ◌!=◌, leb, drop_all,
}
use my_quic.Common.Bytes.{Bytes, IsBytes, IsByte, u16_be, u16_be-IsBytes}
use my_quic.Mqp.Error.{ok, err, refused, MqpError}
use my_quic.Mqp.Addr.{
  v4, v6, TargetAddrRef, ip, domain, AddrHeader, encode, header, written, encode_into, IsAddr,
  is_unspecified,
}

-- The header bytes of an address.
unfoldable pub wire : TargetAddrRef → Bytes
unfolding written
wire a = (written a).0

pub length-wire : (a : TargetAddrRef) → IsAddr a → length (wire a) ≡ (written a).1
unfolding wire
length-wire (ip (v4 os port)) v = omega (arith, length-append os (u16_be port))
length-wire (ip (v6 os port flow scope)) v = omega (arith, length-append os (u16_be port))
length-wire (domain d port) v = omega (arith, length-append d (u16_be port))

abbrev measured : TargetAddrRef → AddrHeader
measured a = record { addr = a; len = (written a).1 }

-- `header` and `encode` apply the same tests: both refuse with the same error, or the header has
-- the address and its length, and the encoder appends the header bytes.
pub data Agree (a : TargetAddrRef) (out : Bytes) : Type 0 where
  both_ok : header a ≡ ok (measured a) → encode a out ≡ ok (out ++ wire a) → Agree a out
  both_err : (e : MqpError) → header a ≡ err e → encode a out ≡ err e → Agree a out

-- The two encoders apply the same tests: `header` and `encode` refuse an address with the same
-- error, or the header carries the address and its length and `encode` appends exactly the header
-- bytes to the buffer.
pub header-encode : (a : TargetAddrRef) (out : Bytes) → Agree a out
unfolding encode header wire
header-encode (ip (v4 os port)) out = elim (Bool-cases (is_unspecified os)) [
  | inl e ↦ both_err (refused "refuse unspecified v4") (rw e) (rw e)
  | inr e ↦ both_ok (rw e) (rw e (simp append_assoc))
]
header-encode (ip (v6 os port flow scope)) out = elim (Bool-cases (is_unspecified os)) [
  | inl e ↦ both_err (refused "refuse unspecified v6") (rw e) (rw e)
  | inr e ↦ elim (Bool-cases (scope == 0)) [
    | inl z ↦ both_ok (rw (e, z)) (rw (e, z) (simp append_assoc))
    | inr z ↦
        both_err (refused "v6 scope_id dropped on wire, refuse scoped addr") (rw (e, z)) (rw (e, z))
  ]
]
header-encode (domain d port) out = elim (Bool-cases (length d != 0)) [
  | inr e ↦ both_err (refused "empty domain") (rw e) (rw e)
  | inl e ↦ elim (Bool-cases (leb (length d) 255)) [
    | inr z ↦ both_err (refused "domain too long") (rw (e, z)) (rw (e, z))
    | inl z ↦ both_ok (rw (e, z) (ground arith)) (rw (e, z) (simp append_assoc))
  ]
]

-- An accepted address: its header is the measured one.
pub header_ok : (a : TargetAddrRef) (h : AddrHeader) → header a ≡ ok h → h ≡ measured a
header_ok a h e = elim (header-encode a []) [ both_ok p q ↦ cc | both_err x p q ↦ cc ]

-- On the zeroed tail of `len` bytes that the codec hands it, the writer leaves the header bytes.
pub encode_into-wire :
    (a : TargetAddrRef)
    → IsAddr a
    → (encode_into (measured a) (replicate (written a).1 0)).0 ≡ wire a
unfolding encode_into wire
encode_into-wire a v =
    rw
      (drop_all {A = ℕ} (written a).1 (replicate (written a).1 0)
        (sym (length-replicate (written a).1 0)))
      (append-nil (wire a))

pub wire-IsBytes :
    (a : TargetAddrRef) (h : AddrHeader) → IsAddr a → header a ≡ ok h → IsBytes (wire a)
unfolding wire header
wire-IsBytes (ip (v4 os port)) h v e =
    (omega arith, All-append IsByte os (u16_be port) v.1 (u16_be-IsBytes port))
wire-IsBytes (ip (v6 os port flow scope)) h v e =
    (omega arith, All-append IsByte os (u16_be port) v.1 (u16_be-IsBytes port))
wire-IsBytes (domain d port) h v e =
    (omega arith, (ground arith, All-append IsByte d (u16_be port) v.0 (u16_be-IsBytes port)))
