-- ===== src/Mqp/R3/Data/RoundTrip.antt =====
-- src/mqp/r3.rs: what each `DATA` encoder writes, the decoder reads back.
use my_quic.Common.{
  ℕ, ◌+◌, ◌*◌, ◌/◌, ◌%◌, ◌^◌, ◌≤◌, ◌<◌, ◌≡◌, refl, ◌∙◌, Bool, true, false, none, some, ◌∷◌, ◌++◌,
  arith, length, bit_and, bit_or, length-append,
}
use my_quic.Common.Bits.{bit_and_class, bit_and_low6, bit_or_join}
use my_quic.Common.Bytes.{Bytes, u16_le, u32_le}
use my_quic.Common.Opt.{>>=-eq-some, require}
use my_quic.Mqp.Error.{ok, to_option, to_option-eq-some}
use my_quic.Mqp.Addr.{TargetAddrRef, AddrHeader, IsAddr, header, on_wire}
use my_quic.Mqp.R3.Fid.{valid_fid, owns, require_fid_owner}
use my_quic.Mqp.R3.Field.{put_addr}
use my_quic.Mqp.R3.Field.Laws.{get_u16_ok, get_u32_ok, addr_at, length-put_addr}
use my_quic.Mqp.R3.Data.Encode.{
  encode_data_steady, encode_data_open, encode_data_src, encode_data_inline, form_owner, open_bytes,
  owns_valid,
}
use my_quic.Mqp.R3.Data.Decode.{
  decode_data, decode_data_steady, decode_data_open, decode_data_src, decode_data_inline,
  decode_data_ext,
}

-- The first byte of a steady frame: the class is 0, and the id comes back.
steady_first : (fid : ℕ) → fid < 16384 → bit_and (bit_and (fid / 256 % 256) 0x3F) 0xC0 ≡ 0
steady_first fid h =
    rw (bit_and_low6 (fid / 256 % 256) (omega arith))
      (bit_and_class (fid / 256 % 256 % 64) (omega arith) ∙ omega arith)

steady_fid :
    (fid : ℕ)
    → fid < 16384
    → bit_or (bit_and (bit_and (fid / 256 % 256) 0x3F) 0x3F * 256) (fid % 256) ≡ fid
steady_fid fid h =
    let e : fid / 256 % 256 % 64 % 64 ≡ fid / 256 = omega arith in
    rw
      (
        bit_and_low6 (fid / 256 % 256) (omega arith),
        bit_and_low6 (fid / 256 % 256 % 64) (omega arith),
        e,
      )
      (bit_or_join fid h)

-- A steady `DATA` frame that was encoded fits the limit and decodes to its flow id and payload,
-- with no session and no address.
pub encode_data_steady-decode_data :
    (fid limit : ℕ) (payload b : Bytes)
    → encode_data_steady fid payload limit ≡ some b
    → (length b ≤ limit)
      × (decode_data b
          ≡ ok
              (record { fid = some fid; sess = none; addr = none; src = false; payload = payload }))
unfolding encode_data_steady decode_data decode_data_steady
encode_data_steady-decode_data fid limit payload b e =
    let (hf, hl, hb) = inv in rw hb (omega arith, rw (steady_first fid hf, steady_fid fid hf))
  where
    inv :
        (fid < 16384)
        × (2 + length payload ≤ limit)
        × (b ≡ bit_and (fid / 256 % 256) 0x3F ∷ (fid % 256) ∷ payload)
    inv = ground arith

module _ (fid sess limit : ℕ) (addr : TargetAddrRef) (src : Bool) (payload b : Bytes) where
  encode_data_open_inv :
      encode_data_open fid sess addr src payload limit ≡ some b
      → (h : AddrHeader) × (header addr ≡ ok h)
        × (owns (form_owner src) fid ≡ true)
        × (7 + h.len + length payload ≤ limit)
        × (b ≡ open_bytes fid sess h src payload)
  unfolding encode_data_open
  encode_data_open_inv e =
      let (_, eo, e₁) = >>=-eq-some (to_option (require_fid_owner fid (form_owner src) _)) _ e in
      let (h, eh, e₂) = >>=-eq-some (to_option (header addr)) _ e₁ in
      (h, to_option-eq-some (header addr) eh, ground arith, ground arith, ground arith)

-- The first byte selects the arm.
dispatch_open :
    (src : Bool) (fid sess : ℕ) (h : AddrHeader) (payload : Bytes)
    → decode_data (open_bytes fid sess h src payload)
      ≡ decode_data_open (open_bytes fid sess h src payload) src
unfolding decode_data decode_data_ext
dispatch_open true fid sess h payload = refl
dispatch_open false fid sess h payload = refl

module _ (addr : TargetAddrRef) (h : AddrHeader) (v : IsAddr addr) (eh : header addr ≡ ok h) where
  decode_data_open_lem :
      (fid sess : ℕ) (src : Bool) (payload : Bytes)
      → sess < 2 ^ 32
      → owns (form_owner src) fid ≡ true
      → decode_data_open (open_bytes fid sess h src payload) src
        ≡ ok (record {
          fid = some fid;
          sess = some sess;
          addr = some (on_wire addr);
          src = src;
          payload = payload;
        })
  unfolding decode_data_open
  decode_data_open_lem fid sess src payload hs ow =
      let b = open_bytes fid sess h src payload in
      let (ed, er) = addr_at addr h v eh b 7 payload refl in
      rw (
        get_u16_ok b 1 fid (u32_le sess ++ (put_addr h ++ payload)) refl
            (omega (arith, owns_valid src fid ow)) (omega arith),
        ow,
        get_u32_ok b 3 sess (put_addr h ++ payload) refl hs (omega arith),
        ed,
        er,
      )

-- A frame that `encode_data_open` wrote from a 32-bit session and a well-formed address fits the
-- limit and decodes to the same flow id, session, side and payload, and to the address as the wire
-- keeps it.
pub encode_data_open-decode_data :
    (fid sess limit : ℕ) (addr : TargetAddrRef) (src : Bool) (payload b : Bytes)
    → sess < 2 ^ 32
    → IsAddr addr
    → encode_data_open fid sess addr src payload limit ≡ some b
    → (length b ≤ limit)
      × (decode_data b
          ≡ ok (record {
            fid = some fid;
            sess = some sess;
            addr = some (on_wire addr);
            src = src;
            payload = payload;
          }))
encode_data_open-decode_data fid sess limit addr src payload b hs v e =
    let (h, eh, ow, hl, hb) = encode_data_open_inv fid sess limit addr src payload b e in
    rw hb (
      omega (arith, length-append (put_addr h) payload, length-put_addr addr h v eh),
      dispatch_open src fid sess h payload
          ∙ decode_data_open_lem addr h v eh fid sess src payload hs ow,
    )

module _ (fid limit : ℕ) (addr : TargetAddrRef) (payload b : Bytes) where
  encode_data_src_inv :
      encode_data_src fid addr payload limit ≡ some b
      → (h : AddrHeader) × (header addr ≡ ok h)
        × (valid_fid fid ≡ true)
        × (3 + h.len + length payload ≤ limit)
        × (b ≡ 0x42 ∷ (u16_le fid ++ (put_addr h ++ payload)))
  unfolding encode_data_src
  encode_data_src_inv e =
      let (_, eo, e₁) = >>=-eq-some (require (valid_fid fid)) _ e in
      let (h, eh, e₂) = >>=-eq-some (to_option (header addr)) _ e₁ in
      (h, to_option-eq-some (header addr) eh, ground arith, ground arith, ground arith)

  -- A frame that `encode_data_src` wrote from a well-formed address fits the limit and decodes to
  -- the same flow id and payload and to the address as the wire keeps it, with no session.
  pub encode_data_src-decode_data :
      IsAddr addr
      → encode_data_src fid addr payload limit ≡ some b
      → (length b ≤ limit)
        × (decode_data b
            ≡ ok (record {
              fid = some fid;
              sess = none;
              addr = some (on_wire addr);
              src = true;
              payload = payload;
            }))
  unfolding decode_data decode_data_ext decode_data_src
  encode_data_src-decode_data v e =
      let (h, eh, ow, hl, hb) = encode_data_src_inv e in
      let f = 0x42 ∷ (u16_le fid ++ (put_addr h ++ payload)) in
      let (ed, er) = addr_at addr h v eh f 3 payload refl in
      rw hb (
        omega (arith, length-append (put_addr h) payload, length-put_addr addr h v eh),
        rw (
          get_u16_ok f 1 fid (put_addr h ++ payload) refl (ground arith) (omega arith),
          ow,
          ed,
          er,
        ),
      )

module _ (sess limit : ℕ) (addr : TargetAddrRef) (payload b : Bytes) where
  encode_data_inline_inv :
      encode_data_inline sess addr payload limit ≡ some b
      → (h : AddrHeader) × (header addr ≡ ok h)
        × (5 + h.len + length payload ≤ limit)
        × (b ≡ 0x44 ∷ (u32_le sess ++ (put_addr h ++ payload)))
  unfolding encode_data_inline
  encode_data_inline_inv e =
      let (h, eh, e₂) = >>=-eq-some (to_option (header addr)) _ e in
      (h, to_option-eq-some (header addr) eh, ground arith, ground arith)

  -- A frame that `encode_data_inline` wrote from a 32-bit session and a well-formed address fits
  -- the limit and decodes to the same session and payload and to the address as the wire keeps it,
  -- with no flow id.
  pub encode_data_inline-decode_data :
      sess < 2 ^ 32
      → IsAddr addr
      → encode_data_inline sess addr payload limit ≡ some b
      → (length b ≤ limit)
        × (decode_data b
            ≡ ok (record {
              fid = none;
              sess = some sess;
              addr = some (on_wire addr);
              src = false;
              payload = payload;
            }))
  unfolding decode_data decode_data_ext decode_data_inline
  encode_data_inline-decode_data hs v e =
      let (h, eh, hl, hb) = encode_data_inline_inv e in
      let f = 0x44 ∷ (u32_le sess ++ (put_addr h ++ payload)) in
      let (ed, er) = addr_at addr h v eh f 5 payload refl in
      rw hb (
        omega (arith, length-append (put_addr h) payload, length-put_addr addr h v eh),
        rw (get_u32_ok f 1 sess (put_addr h ++ payload) refl hs (omega arith), ed, er),
      )
