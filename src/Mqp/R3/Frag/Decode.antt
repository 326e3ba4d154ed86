-- ===== src/Mqp/R3/Frag/Decode.antt =====
-- src/mqp/r3.rs: `decode_frag`, with its two inner matches on the form as functions. Each returns
-- the offset behind what it read.
use my_quic.Common.{
  ℕ, ◌+◌, Bool, true, false, ◌||◌, Option, none, some, ◌==◌, if◌then◌else◌, drop, get_elem?,
  bit_and,
}
use my_quic.Common.Bytes.{Bytes}
use my_quic.Mqp.Error.{malformed, Result, ok, err, ok_or, guard, ◌>>=◌, ◌>>◌}
use my_quic.Mqp.Addr.{TargetAddrRef, decode}
use my_quic.Mqp.R3.Frame.{class_mask, class_frag, form_open, form_src, form_open_src, form_inline}
use my_quic.Mqp.R3.Fid.{client, server, valid_fid, require_fid_owner}
use my_quic.Mqp.R3.Field.{get_u16, get_u32, ext_flags}
use my_quic.Mqp.R3.Frag.{FragRef, frag_meta_ok}

frag_fid_valid : Bytes → Bool → Result (Option ℕ × Bool × ℕ)
frag_fid_valid b src = do
  (fid, off) ← get_u16 b 1
  guard (valid_fid fid) (malformed "bad r3 frag fid")
  ok (some fid, src, off)

frag_fid_owned : Bytes → Bool → Result (Option ℕ × Bool × ℕ)
frag_fid_owned b src = do
  (fid, off) ← get_u16 b 1
  require_fid_owner fid (if src then server else client) "r3 frag open fid owner"
  ok (some fid, src, off)

-- `let (fid, src) = match flags { … }`
unfoldable pub frag_fid : Bytes → ℕ → Result (Option ℕ × Bool × ℕ)
unfolding frag_fid_valid frag_fid_owned
frag_fid b flags =
    if flags == 0
    then frag_fid_valid b false
    else if flags == form_open || flags == form_open_src
    then frag_fid_owned b (flags == form_open_src)
    else if flags == form_src
    then frag_fid_valid b true
    else if flags == form_inline
    then ok (none, false, 1)
    else err (malformed "bad r3 frag flags")

frag_sess_addr : Bytes → ℕ → Result (Option ℕ × Option TargetAddrRef × ℕ)
frag_sess_addr b off = do
  (sess, off₁) ← get_u32 b off
  (addr, n) ← decode (drop off₁ b)
  ok (some sess, some addr, off₁ + n)

frag_addr : Bytes → ℕ → Result (Option ℕ × Option TargetAddrRef × ℕ)
frag_addr b off = do (addr, n) ← decode (drop off b); ok (none, some addr, off + n)

-- `let (sess, addr) = match flags { … }`
unfoldable pub frag_binding : Bytes → ℕ → ℕ → Result (Option ℕ × Option TargetAddrRef × ℕ)
unfolding frag_sess_addr frag_addr
frag_binding b flags off =
    if flags == form_open || (flags == form_open_src || flags == form_inline)
    then frag_sess_addr b off
    else if flags == form_src
    then frag_addr b off
    else ok (none, none, off)

unfoldable pub decode_frag : Bytes → Result FragRef
decode_frag b = do
  b0 ← ok_or (get_elem? b 0) (malformed "empty r3 frame")
  guard (bit_and b0 class_mask == class_frag) (malformed "bad r3 frag kind")
  flags ← ext_flags b0 "bad r3 frag reserved"
  (fid, src, off₁) ← frag_fid b flags
  (frag_id, off₂) ← get_u32 b off₁
  idx ← ok_or (get_elem? b off₂) (malformed "short r3 frag idx")
  total ← ok_or (get_elem? b (off₂ + 1)) (malformed "short r3 frag total")
  (sess, addr, off₃) ← frag_binding b flags (off₂ + 2)
  guard (frag_meta_ok idx total (drop off₃ b)) (malformed "bad r3 frag meta")
  ok (record {
    fid = fid;
    sess = sess;
    addr = addr;
    src = src;
    frag_id = frag_id;
    idx = idx;
    total = total;
    chunk_off = off₃;
    chunk = drop off₃ b;
  })
