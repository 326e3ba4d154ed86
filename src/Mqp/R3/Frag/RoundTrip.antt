-- ===== src/Mqp/R3/Frag/RoundTrip.antt =====
-- src/mqp/r3.rs: what each `FRAG` encoder writes, `decode_frag` reads back.
use my_quic.Common.{
  ℕ, ◌+◌, ◌^◌, ◌≤◌, ◌<◌, ◌≡◌, refl, Bool, true, false, ◌&&◌, none, some, ◌∷◌, ◌++◌, arith, length,
  length-append,
}
use my_quic.Common.Bytes.{Bytes, u16_le, u32_le}
use my_quic.Common.Opt.{>>=-eq-some, require}
use my_quic.Mqp.Error.{ok, to_option, to_option-eq-some}
use my_quic.Mqp.Addr.{TargetAddrRef, AddrHeader, IsAddr, header}
use my_quic.Mqp.R3.Fid.{valid_fid, owns, require_fid_owner}
use my_quic.Mqp.R3.Field.{put_addr}
use my_quic.Mqp.R3.Field.Laws.{get_u16_ok, get_u32_ok, length-put_addr}
use my_quic.Mqp.R3.Data.Encode.{form_owner}
use my_quic.Mqp.R3.Frag.{frag_meta_ok}
use my_quic.Mqp.R3.Frag.Encode.{
  encode_frag_steady, encode_frag_open, encode_frag_src, encode_frag_inline, frag_open_bytes,
}
use my_quic.Mqp.R3.Frag.Forms.{
  bound_frag, decode_frag_open_lem, decode_frag_src_lem, decode_frag_inline_lem,
}
use my_quic.Mqp.R3.Frag.Decode.{decode_frag, frag_fid, frag_binding}

module _ (fid frag_id idx total limit : ℕ) (chunk b : Bytes) where
  encode_frag_steady_inv :
      encode_frag_steady fid frag_id idx total chunk limit ≡ some b
      → (valid_fid fid ≡ true)
        × (frag_meta_ok idx total chunk ≡ true)
        × (9 + length chunk ≤ limit)
        × (b ≡ 0xC0 ∷ (u16_le fid ++ (u32_le frag_id ++ (idx ∷ total ∷ chunk))))
  unfolding encode_frag_steady
  encode_frag_steady_inv e = ground arith

  -- A steady fragment that was encoded with a 32-bit fragment id fits the limit and decodes to the
  -- same id, index, total and chunk, with the chunk at offset 9.
  pub encode_frag_steady-decode_frag :
      frag_id < 2 ^ 32
      → encode_frag_steady fid frag_id idx total chunk limit ≡ some b
      → (length b ≤ limit)
        × (decode_frag b
            ≡ ok (record {
              fid = some fid;
              sess = none;
              addr = none;
              src = false;
              frag_id = frag_id;
              idx = idx;
              total = total;
              chunk_off = 9;
              chunk = chunk;
            }))
  unfolding decode_frag frag_fid frag_binding
  encode_frag_steady-decode_frag hi e =
      let (hv, hm, hl, hb) = encode_frag_steady_inv e in
      let f = 0xC0 ∷ (u16_le fid ++ (u32_le frag_id ++ (idx ∷ total ∷ chunk))) in
      rw hb (
        omega arith,
        rw (
          get_u16_ok f 1 fid (u32_le frag_id ++ (idx ∷ total ∷ chunk)) refl (ground arith)
              (omega arith),
          hv,
          get_u32_ok f 3 frag_id (idx ∷ total ∷ chunk) refl hi (omega arith),
          hm,
        ),
      )

module _ (fid sess frag_id idx total limit : ℕ) (addr : TargetAddrRef) (chunk b : Bytes) where
  encode_frag_open_inv :
      (src : Bool)
      → encode_frag_open fid sess addr src frag_id idx total chunk limit ≡ some b
      → (h : AddrHeader) × (header addr ≡ ok h)
        × (owns (form_owner src) fid ≡ true)
        × (frag_meta_ok idx total chunk ≡ true)
        × (13 + h.len + length chunk ≤ limit)
        × (b ≡ frag_open_bytes fid sess h src frag_id idx total chunk)
  unfolding encode_frag_open
  encode_frag_open_inv src e =
      let (_, eo, e₁) = >>=-eq-some (to_option (require_fid_owner fid (form_owner src) _)) _ e in
      let (_, em, e₂) = >>=-eq-some (require (frag_meta_ok idx total chunk)) _ e₁ in
      let (h, eh, e₃) = >>=-eq-some (to_option (header addr)) _ e₂ in
      (
        h,
        to_option-eq-some (header addr) eh,
        ground arith,
        ground arith,
        ground arith,
        ground arith,
      )

-- An opening fragment that was encoded from a 32-bit session, a 32-bit fragment id and a
-- well-formed address fits the limit and decodes to the same fields, the address as the wire keeps
-- it, with the chunk right behind the address.
pub encode_frag_open-decode_frag :
    (fid sess frag_id idx total limit : ℕ) (addr : TargetAddrRef) (src : Bool) (chunk b : Bytes)
    → sess < 2 ^ 32
    → frag_id < 2 ^ 32
    → IsAddr addr
    → encode_frag_open fid sess addr src frag_id idx total chunk limit ≡ some b
    → (h : AddrHeader) × (header addr ≡ ok h)
      × (length b ≤ limit)
      × (decode_frag b
          ≡ ok (bound_frag (some fid) (some sess) addr src frag_id idx total (13 + h.len) chunk))
encode_frag_open-decode_frag fid sess frag_id idx total limit addr src chunk b hs hi v e =
    let (h, eh, ow, hm, hl, hb) =
      encode_frag_open_inv fid sess frag_id idx total limit addr chunk b src e in
    (
      h,
      eh,
      rw hb (omega (arith, length-append (put_addr h) chunk, length-put_addr addr h v eh)),
      rw hb (decode_frag_open_lem addr h v eh src fid sess frag_id idx total chunk hs hi ow hm),
    )

module _ (frag_id idx total limit : ℕ) (addr : TargetAddrRef) (chunk b : Bytes) where
  encode_frag_src_inv :
      (fid : ℕ)
      → encode_frag_src fid addr frag_id idx total chunk limit ≡ some b
      → (h : AddrHeader) × (header addr ≡ ok h)
        × (valid_fid fid ≡ true)
        × (frag_meta_ok idx total chunk ≡ true)
        × (9 + h.len + length chunk ≤ limit)
        × (b ≡ 0xC2 ∷ (u16_le fid ++ (u32_le frag_id ++ (idx ∷ total ∷ (put_addr h ++ chunk)))))
  unfolding encode_frag_src
  encode_frag_src_inv fid e =
      let (_, em, e₁) = >>=-eq-some (require (valid_fid fid && frag_meta_ok idx total chunk)) _ e in
      let (h, eh, e₂) = >>=-eq-some (to_option (header addr)) _ e₁ in
      (
        h,
        to_option-eq-some (header addr) eh,
        ground arith,
        ground arith,
        ground arith,
        ground arith,
      )

  encode_frag_inline_inv :
      (sess : ℕ)
      → encode_frag_inline sess addr frag_id idx total chunk limit ≡ some b
      → (h : AddrHeader) × (header addr ≡ ok h)
        × (frag_meta_ok idx total chunk ≡ true)
        × (11 + h.len + length chunk ≤ limit)
        × (b ≡ 0xC4 ∷ (u32_le frag_id ++ (idx ∷ total ∷ (u32_le sess ++ (put_addr h ++ chunk)))))
  unfolding encode_frag_inline
  encode_frag_inline_inv sess e =
      let (_, em, e₁) = >>=-eq-some (require (frag_meta_ok idx total chunk)) _ e in
      let (h, eh, e₂) = >>=-eq-some (to_option (header addr)) _ e₁ in
      (h, to_option-eq-some (header addr) eh, ground arith, ground arith, ground arith)

  -- A `SRC` fragment that was encoded from a 32-bit fragment id and a well-formed address fits the
  -- limit and decodes to the same fields, the address as the wire keeps it, with no session and
  -- the chunk right behind the address.
  pub encode_frag_src-decode_frag :
      (fid : ℕ)
      → frag_id < 2 ^ 32
      → IsAddr addr
      → encode_frag_src fid addr frag_id idx total chunk limit ≡ some b
      → (h : AddrHeader) × (header addr ≡ ok h)
        × (length b ≤ limit)
        × (decode_frag b
            ≡ ok (bound_frag (some fid) none addr true frag_id idx total (9 + h.len) chunk))
  encode_frag_src-decode_frag fid hi v e =
      let (h, eh, hv, hm, hl, hb) = encode_frag_src_inv fid e in
      (
        h,
        eh,
        rw hb (omega (arith, length-append (put_addr h) chunk, length-put_addr addr h v eh)),
        rw hb (decode_frag_src_lem addr h v eh fid frag_id idx total chunk hi hv hm),
      )

  -- An `INLINE` fragment that was encoded from a 32-bit session, a 32-bit fragment id and a
  -- well-formed address fits the limit and decodes to the same fields, the address as the wire
  -- keeps it, with no flow id and the chunk right behind the address.
  pub encode_frag_inline-decode_frag :
      (sess : ℕ)
      → sess < 2 ^ 32
      → frag_id < 2 ^ 32
      → IsAddr addr
      → encode_frag_inline sess addr frag_id idx total chunk limit ≡ some b
      → (h : AddrHeader) × (header addr ≡ ok h)
        × (length b ≤ limit)
        × (decode_frag b
            ≡ ok (bound_frag none (some sess) addr false frag_id idx total (11 + h.len) chunk))
  encode_frag_inline-decode_frag sess hs hi v e =
      let (h, eh, hm, hl, hb) = encode_frag_inline_inv sess e in
      (
        h,
        eh,
        rw hb (omega (arith, length-append (put_addr h) chunk, length-put_addr addr h v eh)),
        rw hb (decode_frag_inline_lem addr h v eh sess frag_id idx total chunk hs hi hm),
      )
