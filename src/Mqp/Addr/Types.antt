-- ===== src/Mqp/Addr/Types.antt =====
-- src/mqp/addr.rs: the decoder refuses the type byte exactly when it is none of the three.
use my_quic.Common.{ℕ, ◌≡◌, ◌≢◌, true, false, ◌||◌, ◌∷◌, arith, ◌==◌}
use my_quic.Common.Bytes.{Bytes}
use my_quic.Mqp.Error.{err, bad_atyp}
use my_quic.Mqp.Addr.{decode, decode_v4, decode_v6, decode_domain}

decode_v4_type : (b : Bytes) (t : ℕ) → decode_v4 b ≢ err (bad_atyp t)
unfolding decode_v4
decode_v4_type b t e = ground arith

decode_v6_type : (b : Bytes) (t : ℕ) → decode_v6 b ≢ err (bad_atyp t)
unfolding decode_v6
decode_v6_type b t e = ground arith

decode_domain_type : (b : Bytes) (t : ℕ) → decode_domain b ≢ err (bad_atyp t)
unfolding decode_domain
decode_domain_type b t e = ground arith

pub decode_known :
    (t : ℕ) (rest : Bytes)
    → (t == 0x01 || (t == 0x03 || t == 0x04)) ≡ true
    → decode (t ∷ rest) ≢ err (bad_atyp t)
unfolding decode
decode_known t rest h e = ground (
  arith,
  decode_v4_type (t ∷ rest) t,
  decode_v6_type (t ∷ rest) t,
  decode_domain_type (t ∷ rest) t,
)

pub decode_unknown :
    (t : ℕ) (rest : Bytes)
    → (t == 0x01 || (t == 0x03 || t == 0x04)) ≡ false
    → decode (t ∷ rest) ≡ err (bad_atyp t)
unfolding decode
decode_unknown t rest h = ground arith
