-- ===== src/Mqp/R3/Frag/Bounds.antt =====
-- src/mqp/r3.rs: what holds of every fragment that `decode_frag` lets through.
use my_quic.Common.{
  ℕ, ◌+◌, ◌≤◌, ◌<◌, ◌≡◌, refl, subst, ==→eq, Bool, true, Option, none, some, arith, length, drop,
  ◌==◌, bit_and, get_elem?,
}
use my_quic.Common.Bytes.{Bytes}
use my_quic.Mqp.Error.{malformed, ok, ok_or, guard, >>=-eq-ok, guard_inv, ok_or_inv, ok_injective}
use my_quic.Mqp.R3.Field.{get_u32, ext_flags}
use my_quic.Mqp.R3.Frag.{FragRef, frag_meta_ok}
use my_quic.Mqp.R3.Frag.Decode.{decode_frag, frag_fid, frag_binding}

-- A flow id is a wire id of 14 bits.
abbrev pub FidOk : Option ℕ → Type 0
FidOk none = Unit {0}
FidOk (some fid) = fid < 16384

pub record IsBounded (b : Bytes) (f : FragRef) : Type 0 where
  pub total_pos : 1 ≤ f.total
  pub total_le : f.total ≤ 64
  pub idx_lt : f.idx < f.total
  pub chunk_pos : 1 ≤ length f.chunk
  pub chunk_le : length f.chunk ≤ 8192
  pub view : f.chunk ≡ drop f.chunk_off b
  pub fid_ok : FidOk f.fid

frag_fid-FidOk :
    (b : Bytes) (flags : ℕ) (fid : Option ℕ) (src : Bool) (off : ℕ)
    → frag_fid b flags ≡ ok (fid, src, off)
    → FidOk fid
unfolding frag_fid
frag_fid-FidOk b flags none src off e = tt
frag_fid-FidOk b flags (some fid) src off e = ground arith

meta_bounds :
    (idx total : ℕ) (chunk : Bytes)
    → frag_meta_ok idx total chunk ≡ true
    → (1 ≤ total) × (total ≤ 64) × (idx < total) × (1 ≤ length chunk) × (length chunk ≤ 8192)
unfolding frag_meta_ok
meta_bounds idx total chunk e = ground arith

-- The steps of a decoding that succeeded.
pub record Decoded (b : Bytes) (f : FragRef) : Type 0 where
  pub b0 : ℕ
  pub flags : ℕ
  pub off₁ : ℕ
  pub off₂ : ℕ
  pub first : get_elem? b 0 ≡ some b0
  pub class : bit_and b0 0xC0 ≡ 0xC0
  pub form : ext_flags b0 "bad r3 frag reserved" ≡ ok flags
  pub fid_read : frag_fid b flags ≡ ok (f.fid, f.src, off₁)
  pub id_read : get_u32 b off₁ ≡ ok (f.frag_id, off₂)
  pub idx_read : get_elem? b off₂ ≡ some f.idx
  pub total_read : get_elem? b (off₂ + 1) ≡ some f.total
  pub binding_read : frag_binding b flags (off₂ + 2) ≡ ok (f.sess, f.addr, f.chunk_off)
  pub view : f.chunk ≡ drop f.chunk_off b
  pub meta : frag_meta_ok f.idx f.total f.chunk ≡ true

pub decode_frag_inv : (b : Bytes) (f : FragRef) → decode_frag b ≡ ok f → Decoded b f
unfolding decode_frag
decode_frag_inv b f e =
    let (b0, e₀, r₀) = >>=-eq-ok (ok_or (get_elem? b 0) (malformed "empty r3 frame")) _ e in
    let (u₁, e₁, r₁) =
      >>=-eq-ok (guard (bit_and b0 0xC0 == 0xC0) (malformed "bad r3 frag kind")) _ r₀ in
    let (flags, e₂, r₂) = >>=-eq-ok (ext_flags b0 "bad r3 frag reserved") _ r₁ in
    let ((fid, src, off₁), e₃, r₃) = >>=-eq-ok (frag_fid b flags) _ r₂ in
    let ((frag_id, off₂), e₄, r₄) = >>=-eq-ok (get_u32 b off₁) _ r₃ in
    let (idx, e₅, r₅) = >>=-eq-ok (ok_or (get_elem? b off₂) (malformed "short r3 frag idx")) _ r₄ in
    let (total, e₆, r₆) =
      >>=-eq-ok (ok_or (get_elem? b (off₂ + 1)) (malformed "short r3 frag total")) _ r₅ in
    let ((sess, addr, off₃), e₇, r₇) = >>=-eq-ok (frag_binding b flags (off₂ + 2)) _ r₆ in
    let (u₈, e₈, r₈) =
      >>=-eq-ok (guard (frag_meta_ok idx total (drop off₃ b)) (malformed "bad r3 frag meta")) _
        r₇ in
    subst (Decoded b) (ok_injective r₈) (record {
      b0 = b0;
      flags = flags;
      off₁ = off₁;
      off₂ = off₂;
      first = ok_or_inv _ _ b0 e₀;
      class = ==→eq _ _ (guard_inv _ _ u₁ e₁);
      form = e₂;
      fid_read = e₃;
      id_read = e₄;
      idx_read = ok_or_inv _ _ idx e₅;
      total_read = ok_or_inv _ _ total e₆;
      binding_read = e₇;
      view = refl;
      meta = guard_inv _ _ u₈ e₈;
    })

-- Every fragment that is let through has `1 <= total <= 64`, `idx < total`, a chunk of 1 to 8192
-- bytes that is the buffer from `chunk_off` on, and an id of 14 bits if it has one.
pub decode_frag-IsBounded : (b : Bytes) (f : FragRef) → decode_frag b ≡ ok f → IsBounded b f
decode_frag-IsBounded b f e =
    let s = decode_frag_inv b f e in
    let (h₁, h₂, h₃, h₄, h₅) = meta_bounds f.idx f.total f.chunk s.meta in
    record {
      total_pos = h₁;
      total_le = h₂;
      idx_lt = h₃;
      chunk_pos = h₄;
      chunk_le = h₅;
      view = s.view;
      fid_ok = frag_fid-FidOk b s.flags f.fid f.src s.off₁ s.fid_read;
    }
