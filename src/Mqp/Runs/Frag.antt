-- ===== src/Mqp/Runs/Frag.antt =====
-- `FRAG` frames on concrete bytes.
use my_quic.Common.{◌+◌, ◌≤◌, ◌≡◌, refl, true, false, none, some, [], ◌∷◌, arith, length}
use my_quic.Common.Bytes.{Bytes}
use my_quic.Mqp.Error.{ok}
use my_quic.Mqp.Addr.{TargetAddrRef, AddrHeader, v4, ip, header, encode_into, is_unspecified}
use my_quic.Mqp.R3.Field.{put_addr}
use my_quic.Mqp.R3.Frag.{FragRef, frag_meta_ok}
use my_quic.Mqp.R3.Frag.Encode.{
  encode_frag_steady, encode_frag_open, encode_frag_src, encode_frag_inline,
}
use my_quic.Mqp.R3.Frag.Decode.{decode_frag}
use my_quic.Mqp.R3.Frag.Forms.{bound_frag}
use my_quic.Mqp.R3.Frag.RoundTrip.{
  encode_frag_steady-decode_frag, encode_frag_open-decode_frag, encode_frag_src-decode_frag,
  encode_frag_inline-decode_frag,
}
use my_quic.Mqp.R3.Frag.Kinds.{FragForm, Piece, frag_fields, encode_frag_form-decode_frag}
use my_quic.Mqp.R3.Frag.Bounds.{IsBounded, decode_frag-IsBounded}

abbrev target : TargetAddrRef
target = ip (v4 (10 ∷ 0 ∷ 0 ∷ 1 ∷ []) 53)

abbrev steady_frame : Bytes
steady_frame = 0xC0 ∷ 5 ∷ 0 ∷ 1 ∷ 0 ∷ 0 ∷ 0 ∷ 0 ∷ 2 ∷ 7 ∷ []

abbrev steady_frag : FragRef
steady_frag = record {
  fid = some 5;
  sess = none;
  addr = none;
  src = false;
  frag_id = 1;
  idx = 0;
  total = 2;
  chunk_off = 9;
  chunk = 7 ∷ [];
}

steady : encode_frag_steady 5 1 0 2 (7 ∷ []) 1472 ≡ some steady_frame
unfolding encode_frag_steady frag_meta_ok
steady = refl

steady_read : (length steady_frame ≤ 1472) × (decode_frag steady_frame ≡ ok steady_frag)
steady_read = encode_frag_steady-decode_frag 5 1 0 2 1472 (7 ∷ []) steady_frame (omega arith) steady

decode_frag-IsBounded_example : IsBounded steady_frame steady_frag
decode_frag-IsBounded_example =
    decode_frag-IsBounded steady_frame steady_frag
      ((encode_frag_steady-decode_frag 5 1 0 2 1472 (7 ∷ []) steady_frame (omega arith) steady).1)

abbrev open_frame : Bytes
open_frame =
    0xC1 ∷ 5 ∷ 0 ∷ 1 ∷ 0 ∷ 0 ∷ 0 ∷ 0 ∷ 2 ∷ 9 ∷ 0 ∷ 0 ∷ 0 ∷ 1 ∷ 10 ∷ 0 ∷ 0 ∷ 1 ∷ 0 ∷ 53 ∷ 7 ∷ []

opened : encode_frag_open 5 9 target false 1 0 2 (7 ∷ []) 1472 ≡ some open_frame
unfolding encode_frag_open frag_meta_ok header put_addr encode_into is_unspecified
opened = refl

open_read :
    (h : AddrHeader) × (header target ≡ ok h)
    × (length open_frame ≤ 1472)
    × (decode_frag open_frame
        ≡ ok (bound_frag (some 5) (some 9) target false 1 0 2 (13 + h.len) (7 ∷ [])))
open_read =
    encode_frag_open-decode_frag 5 9 1 0 2 1472 target false (7 ∷ []) open_frame (omega arith)
      (omega arith) (omega arith) opened

abbrev src_frame : Bytes
src_frame = 0xC2 ∷ 5 ∷ 0 ∷ 1 ∷ 0 ∷ 0 ∷ 0 ∷ 0 ∷ 2 ∷ 1 ∷ 10 ∷ 0 ∷ 0 ∷ 1 ∷ 0 ∷ 53 ∷ 7 ∷ []

rebound : encode_frag_src 5 target 1 0 2 (7 ∷ []) 1472 ≡ some src_frame
unfolding encode_frag_src frag_meta_ok header put_addr encode_into is_unspecified
rebound = refl

src_read :
    (h : AddrHeader) × (header target ≡ ok h)
    × (length src_frame ≤ 1472)
    × (decode_frag src_frame ≡ ok (bound_frag (some 5) none target true 1 0 2 (9 + h.len) (7 ∷ [])))
src_read =
    encode_frag_src-decode_frag 1 0 2 1472 target (7 ∷ []) src_frame 5 (omega arith) (omega arith)
      rebound

abbrev inline_frame : Bytes
inline_frame = 0xC4 ∷ 1 ∷ 0 ∷ 0 ∷ 0 ∷ 0 ∷ 2 ∷ 9 ∷ 0 ∷ 0 ∷ 0 ∷ 1 ∷ 10 ∷ 0 ∷ 0 ∷ 1 ∷ 0 ∷ 53 ∷ 7 ∷ []

inlined : encode_frag_inline 9 target 1 0 2 (7 ∷ []) 1472 ≡ some inline_frame
unfolding encode_frag_inline frag_meta_ok header put_addr encode_into is_unspecified
inlined = refl

inline_read :
    (h : AddrHeader) × (header target ≡ ok h)
    × (length inline_frame ≤ 1472)
    × (decode_frag inline_frame
        ≡ ok (bound_frag none (some 9) target false 1 0 2 (11 + h.len) (7 ∷ [])))
inline_read =
    encode_frag_inline-decode_frag 1 0 2 1472 target (7 ∷ []) inline_frame 9 (omega arith)
      (omega arith) (omega arith) inlined

abbrev piece : Piece
piece = record { frag_id = 1; idx = 0; total = 2; chunk = 7 ∷ [] }

encode_frag_form-decode_frag_example :
    (length open_frame ≤ 1472)
    × (decode_frag open_frame ≡ ok (frag_fields (FragForm.open_flow 5 9 target false) piece))
encode_frag_form-decode_frag_example =
    encode_frag_form-decode_frag (FragForm.open_flow 5 9 target false) piece 1472 open_frame
      (omega arith) (omega arith) opened
