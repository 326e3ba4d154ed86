-- ===== src/Mqp/R3/Frag/Forms.antt =====
-- src/mqp/r3.rs: `decode_frag` on the bytes of a fragment of each form that carries a binding.
use my_quic.Common.{
  ℕ, ◌+◌, ◌^◌, ◌<◌, ◌≡◌, refl, Bool, true, false, Option, none, some, ◌∷◌, ◌++◌, arith,
}
use my_quic.Common.Bytes.{Bytes, u16_le, u32_le}
use my_quic.Mqp.Error.{ok}
use my_quic.Mqp.Addr.{TargetAddrRef, AddrHeader, IsAddr, header, on_wire}
use my_quic.Mqp.R3.Fid.{valid_fid, owns}
use my_quic.Mqp.R3.Field.{put_addr}
use my_quic.Mqp.R3.Field.Laws.{get_u16_ok, get_u32_ok, addr_at}
use my_quic.Mqp.R3.Data.Encode.{form_owner, owns_valid}
use my_quic.Mqp.R3.Frag.{FragRef, frag_meta_ok}
use my_quic.Mqp.R3.Frag.Encode.{frag_open_bytes}
use my_quic.Mqp.R3.Frag.Decode.{decode_frag, frag_fid, frag_binding}

-- What `decode_frag` returns for a fragment with a binding.
abbrev pub bound_frag : Option ℕ → Option ℕ → TargetAddrRef → Bool → ℕ → ℕ → ℕ → ℕ → Bytes → FragRef
bound_frag fid sess addr src frag_id idx total off chunk = record {
  fid = fid;
  sess = sess;
  addr = some (on_wire addr);
  src = src;
  frag_id = frag_id;
  idx = idx;
  total = total;
  chunk_off = off;
  chunk = chunk;
}

module _ (addr : TargetAddrRef) (h : AddrHeader) (v : IsAddr addr) (eh : header addr ≡ ok h) where
  pub decode_frag_open_lem :
      (src : Bool) (fid sess frag_id idx total : ℕ) (chunk : Bytes)
      → sess < 2 ^ 32
      → frag_id < 2 ^ 32
      → owns (form_owner src) fid ≡ true
      → frag_meta_ok idx total chunk ≡ true
      → decode_frag (frag_open_bytes fid sess h src frag_id idx total chunk)
        ≡ ok (bound_frag (some fid) (some sess) addr src frag_id idx total (13 + h.len) chunk)
  unfolding decode_frag frag_fid frag_binding
  decode_frag_open_lem true fid sess frag_id idx total chunk hs hi ow hm =
      let f = frag_open_bytes fid sess h true frag_id idx total chunk in
      let tail = idx ∷ total ∷ (u32_le sess ++ (put_addr h ++ chunk)) in
      let (ed, er) = addr_at addr h v eh f 13 chunk refl in
      rw (
        get_u16_ok f 1 fid (u32_le frag_id ++ tail) refl (omega (arith, owns_valid true fid ow))
            (omega arith),
        ow,
        get_u32_ok f 3 frag_id tail refl hi (omega arith),
        get_u32_ok f 9 sess (put_addr h ++ chunk) refl hs (omega arith),
        ed,
        er,
        hm,
      )
  decode_frag_open_lem false fid sess frag_id idx total chunk hs hi ow hm =
      let f = frag_open_bytes fid sess h false frag_id idx total chunk in
      let tail = idx ∷ total ∷ (u32_le sess ++ (put_addr h ++ chunk)) in
      let (ed, er) = addr_at addr h v eh f 13 chunk refl in
      rw (
        get_u16_ok f 1 fid (u32_le frag_id ++ tail) refl (omega (arith, owns_valid false fid ow))
            (omega arith),
        ow,
        get_u32_ok f 3 frag_id tail refl hi (omega arith),
        get_u32_ok f 9 sess (put_addr h ++ chunk) refl hs (omega arith),
        ed,
        er,
        hm,
      )

  pub decode_frag_src_lem :
      (fid frag_id idx total : ℕ) (chunk : Bytes)
      → frag_id < 2 ^ 32
      → valid_fid fid ≡ true
      → frag_meta_ok idx total chunk ≡ true
      → decode_frag
          (0xC2 ∷ (u16_le fid ++ (u32_le frag_id ++ (idx ∷ total ∷ (put_addr h ++ chunk)))))
        ≡ ok (bound_frag (some fid) none addr true frag_id idx total (9 + h.len) chunk)
  unfolding decode_frag frag_fid frag_binding
  decode_frag_src_lem fid frag_id idx total chunk hi hv hm =
      let tail = idx ∷ total ∷ (put_addr h ++ chunk) in
      let f = 0xC2 ∷ (u16_le fid ++ (u32_le frag_id ++ tail)) in
      let (ed, er) = addr_at addr h v eh f 9 chunk refl in
      rw (
        get_u16_ok f 1 fid (u32_le frag_id ++ tail) refl (ground arith) (omega arith),
        hv,
        get_u32_ok f 3 frag_id tail refl hi (omega arith),
        ed,
        er,
        hm,
      )

  pub decode_frag_inline_lem :
      (sess frag_id idx total : ℕ) (chunk : Bytes)
      → sess < 2 ^ 32
      → frag_id < 2 ^ 32
      → frag_meta_ok idx total chunk ≡ true
      → decode_frag
          (0xC4 ∷ (u32_le frag_id ++ (idx ∷ total ∷ (u32_le sess ++ (put_addr h ++ chunk)))))
        ≡ ok (bound_frag none (some sess) addr false frag_id idx total (11 + h.len) chunk)
  unfolding decode_frag frag_fid frag_binding
  decode_frag_inline_lem sess frag_id idx total chunk hs hi hm =
      let tail = idx ∷ total ∷ (u32_le sess ++ (put_addr h ++ chunk)) in
      let f = 0xC4 ∷ (u32_le frag_id ++ tail) in
      let (ed, er) = addr_at addr h v eh f 11 chunk refl in
      rw (
        get_u32_ok f 1 frag_id tail refl hi (omega arith),
        get_u32_ok f 7 sess (put_addr h ++ chunk) refl hs (omega arith),
        ed,
        er,
        hm,
      )
