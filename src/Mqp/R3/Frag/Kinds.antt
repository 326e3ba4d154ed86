-- ===== src/Mqp/R3/Frag/Kinds.antt =====
-- src/mqp/r3.rs: the forms of a `FRAG` frame together, each with its encoder.
use my_quic.Common.{ℕ, ◌+◌, ◌^◌, ◌≤◌, ◌<◌, ◌≡◌, refl, Bool, true, false, Option, none, some, length}
use my_quic.Common.Bytes.{Bytes}
use my_quic.Mqp.Error.{ok, err}
use my_quic.Mqp.Addr.{TargetAddrRef, AddrHeader, IsAddr, header}
use my_quic.Mqp.R3.Frag.{FragRef}
use my_quic.Mqp.R3.Frag.Encode.{
  encode_frag_steady, encode_frag_open, encode_frag_src, encode_frag_inline,
}
use my_quic.Mqp.R3.Frag.Decode.{decode_frag}
use my_quic.Mqp.R3.Frag.Forms.{bound_frag}
use my_quic.Mqp.R3.Frag.RoundTrip.{
  encode_frag_steady-decode_frag, encode_frag_open-decode_frag, encode_frag_src-decode_frag,
  encode_frag_inline-decode_frag,
}

pub data FragForm : Type 0 where
  steady : (fid : ℕ) → FragForm
  open_flow : (fid sess : ℕ) → TargetAddrRef → (src : Bool) → FragForm
  source : (fid : ℕ) → TargetAddrRef → FragForm
  inline : (sess : ℕ) → TargetAddrRef → FragForm

-- Which fragment of which payload.
pub record Piece : Type 0 where
  pub frag_id : ℕ
  pub idx : ℕ
  pub total : ℕ
  pub chunk : Bytes

abbrev pub encode_frag_form : FragForm → Piece → ℕ → Option Bytes
encode_frag_form (steady fid) p limit = encode_frag_steady fid p.frag_id p.idx p.total p.chunk limit
encode_frag_form (open_flow fid sess addr src) p limit =
    encode_frag_open fid sess addr src p.frag_id p.idx p.total p.chunk limit
encode_frag_form (source fid addr) p limit =
    encode_frag_src fid addr p.frag_id p.idx p.total p.chunk limit
encode_frag_form (inline sess addr) p limit =
    encode_frag_inline sess addr p.frag_id p.idx p.total p.chunk limit

-- A 32-bit session, and a well-formed address.
abbrev pub IsFragForm : FragForm → Type 0
IsFragForm (steady fid) = Unit
IsFragForm (open_flow fid sess addr src) = (sess < 2 ^ 32) × IsAddr addr
IsFragForm (source fid addr) = IsAddr addr
IsFragForm (inline sess addr) = (sess < 2 ^ 32) × IsAddr addr

unfoldable pub addr_len : TargetAddrRef → ℕ
addr_len addr = elim (header addr) [ ok h ↦ h.len | err e ↦ 0 ]

addr_len_lem : (addr : TargetAddrRef) (h : AddrHeader) → header addr ≡ ok h → addr_len addr ≡ h.len
unfolding addr_len
addr_len_lem addr h e = rw (e, addr_len) refl

-- The fields that the receiver is to read, the chunk right behind those before it.
abbrev pub frag_fields : FragForm → Piece → FragRef
frag_fields (steady f) p = (record {
  fid = some f;
  sess = none;
  addr = none;
  src = false;
  frag_id = p.frag_id;
  idx = p.idx;
  total = p.total;
  chunk_off = 9;
  chunk = p.chunk;
})
frag_fields (open_flow f s a side) p =
    bound_frag (some f) (some s) a side p.frag_id p.idx p.total (13 + addr_len a) p.chunk
frag_fields (source f a) p =
    bound_frag (some f) none a true p.frag_id p.idx p.total (9 + addr_len a) p.chunk
frag_fields (inline s a) p =
    bound_frag none (some s) a false p.frag_id p.idx p.total (11 + addr_len a) p.chunk

-- A fragment that the encoder of any form wrote, with a 32-bit fragment id and from a 32-bit session
-- and a well-formed address where the form has them, fits the limit and decodes to exactly the fields
-- of the form: its flow id, session and side, the address as the wire keeps it, the fragment's id,
-- index and total, and the chunk right behind them.
pub encode_frag_form-decode_frag :
    (f : FragForm) (p : Piece) (limit : ℕ) (b : Bytes)
    → p.frag_id < 2 ^ 32
    → IsFragForm f
    → encode_frag_form f p limit ≡ some b
    → (length b ≤ limit) × (decode_frag b ≡ ok (frag_fields f p))
encode_frag_form-decode_frag (steady fid) p limit b hi v e =
    encode_frag_steady-decode_frag fid p.frag_id p.idx p.total limit p.chunk b hi e
encode_frag_form-decode_frag (open_flow fid sess addr src) p limit b hi v e =
    let (h, eh, hl, hd) =
      encode_frag_open-decode_frag fid sess p.frag_id p.idx p.total limit addr src p.chunk b v.0 hi
        v.1 e in
    (hl, rw (addr_len_lem addr h eh) hd)
encode_frag_form-decode_frag (source fid addr) p limit b hi v e =
    let (h, eh, hl, hd) =
      encode_frag_src-decode_frag p.frag_id p.idx p.total limit addr p.chunk b fid hi v e in
    (hl, rw (addr_len_lem addr h eh) hd)
encode_frag_form-decode_frag (inline sess addr) p limit b hi v e =
    let (h, eh, hl, hd) =
      encode_frag_inline-decode_frag p.frag_id p.idx p.total limit addr p.chunk b sess v.0 hi v.1
        e in
    (hl, rw (addr_len_lem addr h eh) hd)
