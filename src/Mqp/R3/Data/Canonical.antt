-- ===== src/Mqp/R3/Data/Canonical.antt =====
-- src/mqp/r3.rs: the converse. A `DATA` frame that the decoder accepts is what the encoder of its
-- form writes, so a frame has one encoding.
use my_quic.Common.{
  ℕ, suc, ◌+◌, ◌*◌, ◌/◌, ◌%◌, ◌≤◌, ◌<◌, ◌≡◌, refl, ap, sym, ◌∙◌, Bool, true, false, Option, none,
  some, [], ◌∷◌, ◌++◌, arith, length, drop, le→leb, bit_and, bit_or, length-append, length-drop,
  All-drop, if◌then◌else◌,
}
use my_quic.Common.Bits.{bit_and_low6, bit_or_join}
use my_quic.Common.Bytes.{Bytes, IsBytes, IsByte, u16_le, u32_le, drop_step}
use my_quic.Mqp.Error.{ok, >>=-eq-ok, guard}
use my_quic.Mqp.Addr.{TargetAddrRef, AddrHeader, IsAddr, header, on_wire, decode}
use my_quic.Mqp.Addr.Laws.{wire}
use my_quic.Mqp.Addr.Accept.{decode-Accepts}
use my_quic.Mqp.R3.Fid.{valid_fid, owns, require_fid_owner}
use my_quic.Mqp.R3.Field.{get_u16, get_u32, put_addr}
use my_quic.Mqp.R3.Field.Laws.{put_addr-wire}
use my_quic.Mqp.R3.Field.Invert.{get_u16_inv, get_u32_inv}
use my_quic.Mqp.R3.Data.{DataRef}
use my_quic.Mqp.R3.Data.Encode.{
  encode_data_steady, encode_data_open, encode_data_src, encode_data_inline, form_owner, open_bytes,
}
use my_quic.Mqp.R3.Data.Decode.{
  decode_data_steady, decode_data_open, decode_data_src, decode_data_inline,
}

-- The encoder of the form that the fields of a decoded frame show.
abbrev reencode_parts : Option ℕ → Option ℕ → Option TargetAddrRef → Bool → Bytes → ℕ → Option Bytes
reencode_parts (some fid) (some sess) (some addr) src p limit =
    encode_data_open fid sess addr src p limit
reencode_parts (some fid) none (some addr) true p limit = encode_data_src fid addr p limit
reencode_parts (some fid) none none false p limit = encode_data_steady fid p limit
reencode_parts none (some sess) (some addr) false p limit = encode_data_inline sess addr p limit
reencode_parts _ _ _ _ _ _ = none

abbrev pub reencode : DataRef → ℕ → Option Bytes
reencode d limit = reencode_parts d.fid d.sess d.addr d.src d.payload limit

-- An address that was read at `off`, and what the encoder would write for it.
pub record AddrAt (b : Bytes) (off : ℕ) (a : TargetAddrRef) (n : ℕ) : Type 0 where
  pub head : AddrHeader
  pub accepted : header a ≡ ok head
  pub len_eq : head.len ≡ n
  pub bytes : drop off b ≡ put_addr head ++ drop (off + n) b
  pub fits : off + n ≤ length b
  pub is_addr : IsAddr a
  pub kept : on_wire a ≡ a

pub AddrAt-inv :
    (b : Bytes) (off n : ℕ) (a : TargetAddrRef)
    → IsBytes b
    → off ≤ length b
    → decode (drop off b) ≡ ok (a, n)
    → AddrAt b off a n
AddrAt-inv b off n a hb ho e =
    let s = decode-Accepts (drop off b) a n (All-drop IsByte off b hb) e in
    let (pw, pl) = put_addr-wire a s.head s.is_addr s.accepted in
    let hn : n ≡ length (wire a) = omega (arith, pl, s.len_eq) in
    let er : drop (off + n) b ≡ s.rest = drop_step b off n (wire a) s.rest s.whole hn in
    record {
      head = s.head;
      accepted = s.accepted;
      len_eq = s.len_eq;
      bytes = rw (pw, er) s.whole;
      fits = omega (arith, ap length s.whole, length-append (wire a) s.rest, length-drop off b);
      is_addr = s.is_addr;
      kept = s.kept;
    }

decode_data_open_inv :
    (b : Bytes) (src : Bool) (d : DataRef)
    → decode_data_open b src ≡ ok d
    → (fid off₁ sess off₂ : ℕ) × (addr : TargetAddrRef) × (n : ℕ) × (get_u16 b 1 ≡ ok (fid, off₁))
      × (owns (form_owner src) fid ≡ true)
      × (get_u32 b off₁ ≡ ok (sess, off₂))
      × (decode (drop off₂ b) ≡ ok (addr, n))
      × (d ≡ record {
        fid = some fid;
        sess = some sess;
        addr = some addr;
        src = src;
        payload = drop (off₂ + n) b;
      })
unfolding decode_data_open
decode_data_open_inv b src d e =
    let ((fid, off₁), e₁, r₁) = >>=-eq-ok (get_u16 b 1) _ e in
    let (_, e₂, r₂) = >>=-eq-ok (require_fid_owner fid _ _) _ r₁ in
    let ((sess, off₂), e₃, r₃) = >>=-eq-ok (get_u32 b off₁) _ r₂ in
    let ((addr, n), e₄, r₄) = >>=-eq-ok (decode (drop off₂ b)) _ r₃ in
    (fid, off₁, sess, off₂, addr, n, e₁, ground arith, e₃, e₄, ground arith)

-- The room that a frame needs is the room that it took.
exact_room :
    (b payload : Bytes) (k m : ℕ)
    → payload ≡ drop (k + m) b
    → k + m ≤ length b
    → k + m + length payload ≤ length b
exact_room b payload k m e h = omega (arith, ap length e, length-drop (k + m) b)

pub data_open-canonical :
    (b0 : ℕ) (bs : Bytes) (src : Bool) (d : DataRef)
    → IsBytes (b0 ∷ bs)
    → b0 ≡ bit_or 0x40 (if src then 0x03 else 0x01)
    → decode_data_open (b0 ∷ bs) src ≡ ok d
    → reencode d (length (b0 ∷ bs)) ≡ some (b0 ∷ bs)
unfolding encode_data_open
data_open-canonical b0 bs src d hb h0 e =
    let b = b0 ∷ bs in
    let (fid, off₁, sess, off₂, addr, n, e₁, ow, e₂, ea, ed) = decode_data_open_inv b src d e in
    let u = get_u16_inv b 1 fid off₁ hb e₁ in
    let o₁ : off₁ ≡ 3 = u.next in
    let w = get_u32_inv b 3 sess off₂ hb (rw o₁ at e₂) in
    let o₂ : off₂ ≡ 7 = w.next in
    let fits : 7 ≤ length b = omega (arith, ap length w.bytes, length-drop 3 b) in
    let s = AddrAt-inv b 7 n addr hb fits (rw o₂ at ea) in
    let whole : b ≡ open_bytes fid sess s.head src (drop (7 + n) b) =
      cc (h0, u.bytes, w.bytes, s.bytes) in
    let room = exact_room b (drop (7 + n) b) 7 n refl s.fits in
    rw (ed, o₂, ow, s.accepted, s.len_eq, le→leb _ _ room) (ap some (sym whole))

decode_data_src_inv :
    (b : Bytes) (d : DataRef)
    → decode_data_src b ≡ ok d
    → (fid off₁ : ℕ) × (addr : TargetAddrRef) × (n : ℕ) × (get_u16 b 1 ≡ ok (fid, off₁))
      × (valid_fid fid ≡ true)
      × (decode (drop off₁ b) ≡ ok (addr, n))
      × (d ≡ record {
        fid = some fid;
        sess = none;
        addr = some addr;
        src = true;
        payload = drop (off₁ + n) b;
      })
unfolding decode_data_src
decode_data_src_inv b d e =
    let ((fid, off₁), e₁, r₁) = >>=-eq-ok (get_u16 b 1) _ e in
    let (_, e₂, r₂) = >>=-eq-ok (guard (valid_fid fid) _) _ r₁ in
    let ((addr, n), e₄, r₄) = >>=-eq-ok (decode (drop off₁ b)) _ r₂ in
    (fid, off₁, addr, n, e₁, ground arith, e₄, ground arith)

pub data_src-canonical :
    (bs : Bytes) (d : DataRef)
    → IsBytes (0x42 ∷ bs)
    → decode_data_src (0x42 ∷ bs) ≡ ok d
    → reencode d (length (0x42 ∷ bs)) ≡ some (0x42 ∷ bs)
unfolding encode_data_src
data_src-canonical bs d hb e =
    let b = 0x42 ∷ bs in
    let (fid, off₁, addr, n, e₁, ow, ea, ed) = decode_data_src_inv b d e in
    let u = get_u16_inv b 1 fid off₁ hb e₁ in
    let o₁ : off₁ ≡ 3 = u.next in
    let fits : 3 ≤ length b = omega (arith, ap length u.bytes, length-drop 1 b) in
    let s = AddrAt-inv b 3 n addr hb fits (rw o₁ at ea) in
    let whole : b ≡ 0x42 ∷ (u16_le fid ++ (put_addr s.head ++ drop (3 + n) b)) =
      cc (u.bytes, s.bytes) in
    let room = exact_room b (drop (3 + n) b) 3 n refl s.fits in
    rw (ed, o₁, ow, s.accepted, s.len_eq, le→leb _ _ room) (ap some (sym whole))

decode_data_inline_inv :
    (b : Bytes) (d : DataRef)
    → decode_data_inline b ≡ ok d
    → (sess off₁ : ℕ) × (addr : TargetAddrRef) × (n : ℕ) × (get_u32 b 1 ≡ ok (sess, off₁))
      × (decode (drop off₁ b) ≡ ok (addr, n))
      × (d ≡ record {
        fid = none;
        sess = some sess;
        addr = some addr;
        src = false;
        payload = drop (off₁ + n) b;
      })
unfolding decode_data_inline
decode_data_inline_inv b d e =
    let ((sess, off₁), e₁, r₁) = >>=-eq-ok (get_u32 b 1) _ e in
    let ((addr, n), e₄, r₄) = >>=-eq-ok (decode (drop off₁ b)) _ r₁ in
    (sess, off₁, addr, n, e₁, e₄, ground arith)

pub data_inline-canonical :
    (bs : Bytes) (d : DataRef)
    → IsBytes (0x44 ∷ bs)
    → decode_data_inline (0x44 ∷ bs) ≡ ok d
    → reencode d (length (0x44 ∷ bs)) ≡ some (0x44 ∷ bs)
unfolding encode_data_inline
data_inline-canonical bs d hb e =
    let b = 0x44 ∷ bs in
    let (sess, off₁, addr, n, e₁, ea, ed) = decode_data_inline_inv b d e in
    let u = get_u32_inv b 1 sess off₁ hb e₁ in
    let o₁ : off₁ ≡ 5 = u.next in
    let fits : 5 ≤ length b = omega (arith, ap length u.bytes, length-drop 1 b) in
    let s = AddrAt-inv b 5 n addr hb fits (rw o₁ at ea) in
    let whole : b ≡ 0x44 ∷ (u32_le sess ++ (put_addr s.head ++ drop (5 + n) b)) =
      cc (u.bytes, s.bytes) in
    let room = exact_room b (drop (5 + n) b) 5 n refl s.fits in
    rw (ed, o₁, s.accepted, s.len_eq, le→leb _ _ room) (ap some (sym whole))

steady_parts :
    (b0 b1 : ℕ)
    → b0 < 64
    → b1 < 256
    → (fid : ℕ) × (bit_or (bit_and b0 0x3F * 256) b1 ≡ fid)
      × (fid < 16384)
      × (bit_and (fid / 256 % 256) 0x3F ≡ b0)
      × (fid % 256 ≡ b1)
steady_parts b0 b1 h0 h1 =
    let n = b0 * 256 + b1 in
    let hi : n / 256 ≡ b0 = omega arith in
    let lo : n % 256 ≡ b1 = omega arith in
    let m : bit_and b0 0x3F ≡ b0 = bit_and_low6 b0 (omega arith) ∙ omega arith in
    (
      n,
      rw m (rw (hi, lo) at (bit_or_join n (omega arith))),
      omega arith,
      rw hi (bit_and_low6 (b0 % 256) (omega arith) ∙ omega arith),
      lo,
    )

pub data_steady-canonical :
    (b0 : ℕ) (bs : Bytes) (d : DataRef)
    → IsBytes (b0 ∷ bs)
    → b0 < 64
    → decode_data_steady (b0 ∷ bs) b0 ≡ ok d
    → reencode d (length (b0 ∷ bs)) ≡ some (b0 ∷ bs)
unfolding encode_data_steady decode_data_steady
data_steady-canonical b0 [] d hb h0 e = cc
data_steady-canonical b0 (b1 ∷ p) d hb h0 e =
    let (fid, ef, hf, e₀, e₁) = steady_parts b0 b1 h0 hb.1.0 in
    let ed : d ≡ record { fid = some fid; sess = none; addr = none; src = false; payload = p } =
      ground (arith, ef) in
    rw (
      ed,
      le→leb fid 0x3FFF (omega arith),
      le→leb (2 + length p) (suc (suc (length p))) (omega arith),
      e₀,
      e₁,
    )
