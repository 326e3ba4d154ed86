-- ===== src/Mqp/Addr/Decode.antt =====
-- src/mqp/addr.rs: the decoder against the encoder, both ways.
use my_quic.Common.{
  ℕ, zero, suc, ◌+◌, ◌/◌, ◌%◌, ◌≤◌, ◌<◌, ◌≡◌, refl, ap, ◌∙◌, [], ◌∷◌, ◌++◌, arith, length, true,
  false, length-append, append_assoc, ◌!=◌, le→leb, take-append_left,
}
use my_quic.Common.Bytes.{Bytes, u16_from_be, index}
use my_quic.Common.Utf8.{valid_utf8}
use my_quic.Mqp.Error.{ok}
use my_quic.Mqp.Addr.{
  v4, v6, TargetAddrRef, ip, domain, AddrHeader, header, decode, IsAddr, on_wire, is_unspecified,
  decode_v4, decode_v6, decode_domain,
}
use my_quic.Mqp.Addr.Laws.{wire}

index-append :
    (front rest : Bytes) (k i : ℕ) → i ≡ length front + k → index (front ++ rest) i ≡ index rest k
index-append [] rest k i e = let e' : i ≡ k = omega arith in ap (index rest) e'
index-append (x ∷ front) rest k zero e = absurd (omega arith)
index-append (x ∷ front) rest k (suc i) e = index-append front rest k i (omega arith)

u16_be_lem : (p : ℕ) → p < 65536 → u16_from_be (p / 256 % 256) (p % 256) ≡ p
u16_be_lem p h = omega arith

module _ (front : Bytes) (x y : ℕ) (rest : Bytes) where
  tail_len : 2 + length front ≤ length (front ++ x ∷ y ∷ rest)
  tail_len = omega (arith, length-append front (x ∷ y ∷ rest))

  decode_v4_lem :
      length front ≡ 4
      → is_unspecified front ≡ false
      → decode_v4 (0x01 ∷ (front ++ x ∷ y ∷ rest)) ≡ ok (ip (v4 front (u16_from_be x y)), 7)
  unfolding decode_v4
  decode_v4_lem hl hu = rw (
    le→leb 7 (suc (length (front ++ x ∷ y ∷ rest))) (omega (arith, tail_len)),
    take-append_left 4 front (x ∷ y ∷ rest) (omega arith),
    index-append front (x ∷ y ∷ rest) 0 4 (omega arith),
    index-append front (x ∷ y ∷ rest) 1 5 (omega arith),
    hu,
  )

  decode_v6_lem :
      length front ≡ 16
      → is_unspecified front ≡ false
      → decode_v6 (0x04 ∷ (front ++ x ∷ y ∷ rest)) ≡ ok (ip (v6 front (u16_from_be x y) 0 0), 19)
  unfolding decode_v6
  decode_v6_lem hl hu = rw (
    le→leb 19 (suc (length (front ++ x ∷ y ∷ rest))) (omega (arith, tail_len)),
    take-append_left 16 front (x ∷ y ∷ rest) (omega arith),
    index-append front (x ∷ y ∷ rest) 0 16 (omega arith),
    index-append front (x ∷ y ∷ rest) 1 17 (omega arith),
    hu,
  )

  decode_domain_lem :
      (n : ℕ)
      → n ≡ length front
      → (n != 0) ≡ true
      → valid_utf8 front ≡ true
      → decode_domain (0x03 ∷ n ∷ (front ++ x ∷ y ∷ rest))
        ≡ ok (domain front (u16_from_be x y), 4 + n)
  unfolding decode_domain
  decode_domain_lem n hl hn hu = rw (
    le→leb 2 (suc (suc (length (front ++ x ∷ y ∷ rest)))) (omega arith),
    hn,
    le→leb (2 + n + 2) (suc (suc (length (front ++ x ∷ y ∷ rest)))) (omega (arith, tail_len)),
    take-append_left n front (x ∷ y ∷ rest) hl,
    hu,
    index-append (0x03 ∷ n ∷ front) (x ∷ y ∷ rest) 0 (2 + n) (omega arith),
    index-append (0x03 ∷ n ∷ front) (x ∷ y ∷ rest) 1 (3 + n) (omega arith),
  )

-- A well-formed address that has a header reads back from its header bytes, whatever follows them:
-- the decoder returns the address as the wire keeps it, and the header length as the bytes
-- consumed.
pub decode-wire :
    (a : TargetAddrRef) (h : AddrHeader) (rest : Bytes)
    → IsAddr a
    → header a ≡ ok h
    → decode (wire a ++ rest) ≡ ok (on_wire a, h.len)
unfolding decode header wire
decode-wire (ip (v4 os port)) h rest v e =
    rw append_assoc
      (decode_v4_lem os _ _ rest v.0 (ground arith) ∙ ground (arith, u16_be_lem port v.2))
decode-wire (ip (v6 os port flow scope)) h rest v e =
    rw append_assoc
      (decode_v6_lem os _ _ rest v.0 (ground arith) ∙ ground (arith, u16_be_lem port v.2))
decode-wire (domain d port) h rest v e = rw append_assoc (
    decode_domain_lem d _ _ rest (length d) refl (ground arith) v.1
    ∙ ground (arith, u16_be_lem port v.2))
