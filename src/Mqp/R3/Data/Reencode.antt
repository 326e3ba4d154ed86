-- ===== src/Mqp/R3/Data/Reencode.antt =====
-- src/mqp/r3.rs: `decode_data` as a whole. The first byte selects the arm, and each arm's frames are
-- the encoder's.
use my_quic.Common.{
  ℕ, ◌+◌, ◌≡◌, Bool, true, false, Bool-cases, inl, inr, some, [], ◌∷◌, arith, length, ==→eq, ◌==◌,
  bit_and, bit_or, if◌then◌else◌,
}
use my_quic.Common.Bits.{bit_and_class}
use my_quic.Common.Bytes.{Bytes, IsBytes}
use my_quic.Mqp.Error.{ok, >>=-eq-ok}
use my_quic.Mqp.R3.Field.{ext_flags}
use my_quic.Mqp.R3.Field.Invert.{first_byte}
use my_quic.Mqp.R3.Data.{DataRef}
use my_quic.Mqp.R3.Data.Decode.{
  decode_data, decode_data_open, decode_data_src, decode_data_inline, decode_data_ext,
  decode_data_form,
}
use my_quic.Mqp.R3.Data.Canonical.{
  reencode, data_open-canonical, data_src-canonical, data_inline-canonical, data_steady-canonical,
}

module _ (b0 : ℕ) (bs : Bytes) (d : DataRef) (hb : IsBytes (b0 ∷ bs)) where
  -- The arms, with the first byte as an equation.
  at_open :
      (src : Bool)
      → b0 ≡ bit_or 0x40 (if src then 0x03 else 0x01)
      → decode_data_open (b0 ∷ bs) src ≡ ok d
      → reencode d (length (b0 ∷ bs)) ≡ some (b0 ∷ bs)
  at_open src h e = data_open-canonical b0 bs src d hb h e

  at_src :
      b0 ≡ 0x42 → decode_data_src (b0 ∷ bs) ≡ ok d → reencode d (length (b0 ∷ bs)) ≡ some (b0 ∷ bs)
  at_src h e = rw h (data_src-canonical bs d (omega arith, hb.1) (rw h at e))

  at_inline :
      b0 ≡ 0x44
      → decode_data_inline (b0 ∷ bs) ≡ ok d
      → reencode d (length (b0 ∷ bs)) ≡ some (b0 ∷ bs)
  at_inline h e = rw h (data_inline-canonical bs d (omega arith, hb.1) (rw h at e))

  at_form :
      (flags : ℕ)
      → b0 ≡ 0x40 + flags
      → decode_data_form (b0 ∷ bs) flags ≡ ok d
      → reencode d (length (b0 ∷ bs)) ≡ some (b0 ∷ bs)
  unfolding decode_data_form
  at_form flags h e = elim (Bool-cases (flags == 1)) [
    | inl p ↦ let q : flags ≡ 1 = ==→eq flags 1 p in at_open false (rw h (rw q)) (rw q at e)
    | inr p ↦ elim (Bool-cases (flags == 3)) [
      | inl q ↦ let r : flags ≡ 3 = ==→eq flags 3 q in at_open true (rw h (rw r)) (rw r at e)
      | inr q ↦ elim (Bool-cases (flags == 2)) [
        | inl r ↦ at_src (ground (arith, ==→eq flags 2 r)) (rw (p, q, r) at e)
        | inr r ↦ elim (Bool-cases (flags == 4)) [
          | inl s ↦ at_inline (ground (arith, ==→eq flags 4 s)) (rw (p, q, r, s) at e)
          | inr s ↦ cc (rw (p, q, r, s) at e)
        ]
      ]
    ]
  ]

  at_ext :
      bit_and b0 0xC0 ≡ 0x40
      → decode_data_ext (b0 ∷ bs) b0 ≡ ok d
      → reencode d (length (b0 ∷ bs)) ≡ some (b0 ∷ bs)
  unfolding decode_data_ext
  at_ext hc e =
      let (flags, ef, r) = >>=-eq-ok (ext_flags b0 _) _ e in
      at_form flags (first_byte b0 flags 0x40 _ hb.0 hc ef) r

-- For a buffer of bytes that `decode_data` accepts, the encoder of the form that the decoded
-- fields show, with the buffer's length as its limit, writes the buffer back byte for byte.
pub decode_data-reencode :
    (b : Bytes) (d : DataRef) → IsBytes b → decode_data b ≡ ok d → reencode d (length b) ≡ some b
unfolding decode_data
decode_data-reencode [] d hb e = cc
decode_data-reencode (b0 ∷ bs) d hb e = elim (Bool-cases (bit_and b0 0xC0 == 0)) [
  | inl p ↦
      data_steady-canonical b0 bs d hb
        (omega (arith, ==→eq (bit_and b0 0xC0) 0 p, bit_and_class b0 hb.0)) (rw p at e)
  | inr p ↦ elim (Bool-cases (bit_and b0 0xC0 == 0x40)) [
    | inl q ↦ at_ext b0 bs d hb (==→eq (bit_and b0 0xC0) 0x40 q) (rw (p, q) at e)
    | inr q ↦ cc (rw (p, q) at e)
  ]
]
