-- ===== src/Mqp/CtlStream/Classify.antt =====
-- src/mqp/ctl_stream.rs against src/mqp/addr.rs: the first byte of a client-opened stream.
use my_quic.Common.{
  ℕ, ◌≡◌, refl, ◌||◌, Option, none, some, ◌∷◌, ◌==◌, ◌≢◌, Bool-cases, inl, inr, ==→eq, eq→==,
}
use my_quic.Common.Bytes.{Bytes}
use my_quic.Mqp.Error.{err, bad_atyp}
use my_quic.Mqp.Addr.{decode}
use my_quic.Mqp.Addr.Types.{decode_known, decode_unknown}
use my_quic.Mqp.CtlStream.{StreamClass, control, tcp, classify_first_byte}

-- A stream is routed to the TCP relay exactly when its first byte is one that the address decoder
-- knows; the control marker is none of these.
abbrev pub Routed : ℕ → Bytes → Option StreamClass → Type 0
Routed first rest (some control) = (first ≡ 0xFF) × (decode (first ∷ rest) ≡ err (bad_atyp first))
Routed first rest (some (tcp atyp)) =
    (atyp ≡ first) × (decode (first ∷ rest) ≢ err (bad_atyp first))
Routed first rest none = (first ≢ 0xFF) × (decode (first ∷ rest) ≡ err (bad_atyp first))

-- The first byte of a stream is routed to the control reader only for the marker, which is no
-- address type of the address decoder, to the TCP opener only for a byte that the address decoder
-- takes as an address type, and refused only where that decoder refuses the type too.
pub classify_first_byte-Routed :
    (first : ℕ) (rest : Bytes) → Routed first rest (classify_first_byte first)
unfolding classify_first_byte
classify_first_byte-Routed first rest = elim (Bool-cases (first == 0xFF)) [
  | inl m ↦
      let e : first ≡ 0xFF = ==→eq first 0xFF m in rw (m, e) (refl, decode_unknown 0xFF rest refl)
  | inr m ↦ elim (Bool-cases (first == 0x01 || (first == 0x03 || first == 0x04))) [
    | inl a ↦ rw (m, a) (refl, decode_known first rest a)
    | inr a ↦ rw (m, a) (λ e. cc (eq→== first 0xFF e), decode_unknown first rest a)
  ]
]
