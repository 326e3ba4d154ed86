-- ===== src/Mqp/R3/Frag/Encode.antt =====
-- src/mqp/r3.rs: the `FRAG` encoders.
use my_quic.Common.{ℕ, Bool, ◌&&◌, Option, some, ◌∷◌, ◌++◌, leb, if◌then◌else◌, length, bit_or}
use my_quic.Common.Bytes.{Bytes, u16_le, u32_le}
use my_quic.Common.Opt.{◌>>=◌, ◌>>◌, require}
use my_quic.Mqp.Error.{to_option}
use my_quic.Mqp.Addr.{TargetAddrRef, AddrHeader, header}
use my_quic.Mqp.R3.Frame.{class_frag, form_open, form_src, form_open_src, form_inline}
use my_quic.Mqp.R3.Fid.{valid_fid, require_fid_owner}
use my_quic.Mqp.R3.Field.{put_addr}
use my_quic.Mqp.R3.Data.Encode.{form_owner}
use my_quic.Mqp.R3.Frag.{
  frag_steady_len, frag_open_len, frag_src_len, frag_inline_len, frag_meta_ok,
}

unfoldable pub encode_frag_steady : ℕ → ℕ → ℕ → ℕ → Bytes → ℕ → Option Bytes
encode_frag_steady fid frag_id idx total chunk limit = do
  require (valid_fid fid && frag_meta_ok idx total chunk)
  require (leb (frag_steady_len (length chunk)) limit)
  some (class_frag ∷ (u16_le fid ++ (u32_le frag_id ++ (idx ∷ total ∷ chunk))))

-- The `OPEN` and `OPEN_SRC` fragments as bytes.
abbrev pub frag_open_bytes : ℕ → ℕ → AddrHeader → Bool → ℕ → ℕ → ℕ → Bytes → Bytes
frag_open_bytes fid sess h src frag_id idx total chunk =
    bit_or class_frag (if src then form_open_src else form_open)
    ∷ (u16_le fid ++ (u32_le frag_id ++ (idx ∷ total ∷ (u32_le sess ++ (put_addr h ++ chunk)))))

unfoldable pub encode_frag_open :
    ℕ → ℕ → TargetAddrRef → Bool → ℕ → ℕ → ℕ → Bytes → ℕ → Option Bytes
encode_frag_open fid sess addr src frag_id idx total chunk limit = do
  to_option (require_fid_owner fid (form_owner src) "r3 frag open fid owner")
  require (frag_meta_ok idx total chunk)
  h ← to_option (header addr)
  require (leb (frag_open_len h.len (length chunk)) limit)
  some (frag_open_bytes fid sess h src frag_id idx total chunk)

unfoldable pub encode_frag_src : ℕ → TargetAddrRef → ℕ → ℕ → ℕ → Bytes → ℕ → Option Bytes
encode_frag_src fid addr frag_id idx total chunk limit = do
  require (valid_fid fid && frag_meta_ok idx total chunk)
  h ← to_option (header addr)
  require (leb (frag_src_len h.len (length chunk)) limit)
  some (
      bit_or class_frag form_src
      ∷ (u16_le fid ++ (u32_le frag_id ++ (idx ∷ total ∷ (put_addr h ++ chunk)))))

unfoldable pub encode_frag_inline : ℕ → TargetAddrRef → ℕ → ℕ → ℕ → Bytes → ℕ → Option Bytes
encode_frag_inline sess addr frag_id idx total chunk limit = do
  require (frag_meta_ok idx total chunk)
  h ← to_option (header addr)
  require (leb (frag_inline_len h.len (length chunk)) limit)
  some (
      bit_or class_frag form_inline
      ∷ (u32_le frag_id ++ (idx ∷ total ∷ (u32_le sess ++ (put_addr h ++ chunk)))))
