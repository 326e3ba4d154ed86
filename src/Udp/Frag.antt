-- ===== src/Udp/Frag.antt =====
-- src/udp/r2_frag.rs: the plan that splits a payload, and the chunks that the send loop takes by it.
pub mod Split
use my_quic.Common.{
  ℕ, zero, suc, ◌+◌, ◌-◌, ◌*◌, ◌/◌, ◌%◌, ◌^◌, Bool, true, false, ◌||◌, Option, none, some, List, [],
  ◌∷◌, ltb, leb, ◌==◌, if◌then◌else◌, length, take, drop,
}
use Prim.Native.Nat.{min}
use my_quic.Common.Bytes.{Bytes}
use my_quic.Common.Opt.{◌>>=◌, ◌>>◌, require}
use my_quic.Mqp.Fragment.{mqp_frag_max_payload, mqp_frag_max_total}

abbrev pub r2_frag_max_payload : ℕ
r2_frag_max_payload = mqp_frag_max_payload

abbrev pub frame_bookkeeping : ℕ
frame_bookkeeping = 48

pub record FragPlan : Type 0 where
  pub total : ℕ
  pub first_hdr : ℕ
  pub rest_hdr : ℕ
  pub first_chunk : ℕ
  pub rest_chunk : ℕ

-- `checked_sub`.
abbrev pub checked_sub : ℕ → ℕ → Option ℕ
checked_sub a b = if ltb a b then none else some (a - b)

-- `div_ceil`, for a divisor above zero.
abbrev pub div_ceil : ℕ → ℕ → ℕ
div_ceil a b = (a + (b - 1)) / b

abbrev pub frame_total : ℕ → ℕ → ℕ → ℕ
frame_total payload_len first_chunk rest_chunk =
    if leb payload_len first_chunk then 1 else 1 + div_ceil (payload_len - first_chunk) rest_chunk

unfoldable pub new : ℕ → ℕ → ℕ → ℕ → Option FragPlan
new limit first_hdr rest_hdr payload_len = do
  require (ltb 0 payload_len)
  require (leb payload_len r2_frag_max_payload)
  first_chunk ← checked_sub limit first_hdr
  rest_chunk ← checked_sub limit rest_hdr
  require (ltb 0 first_chunk)
  require (ltb 0 rest_chunk)
  let total = frame_total payload_len first_chunk rest_chunk
  require (leb total mqp_frag_max_total)
  some (record {
    total = total % 256;
    first_hdr = first_hdr;
    rest_hdr = rest_hdr;
    first_chunk = first_chunk;
    rest_chunk = rest_chunk;
  })

-- `saturating_add` and `saturating_mul` on a 64-bit `usize`.
abbrev pub saturating_add : ℕ → ℕ → ℕ
saturating_add a b = min (a + b) 18446744073709551615

abbrev pub saturating_mul : ℕ → ℕ → ℕ
saturating_mul a b = min (a * b) 18446744073709551615

unfoldable pub footprint : FragPlan → ℕ → ℕ
footprint p payload_len =
    saturating_add
      (saturating_add (saturating_add payload_len p.first_hdr)
        (saturating_mul (p.total - 1) p.rest_hdr))
      (saturating_mul (p.total - 1) frame_bookkeeping)

-- `chunk_len` in the send loop.
abbrev pub chunk_len : FragPlan → ℕ → ℕ → ℕ
chunk_len p idx remaining =
    if idx == 0 then min p.first_chunk remaining else min p.rest_chunk remaining

-- The chunks of the frames from `idx` on, `left` of them, where `payload` is what is left of it.
unfoldable pub chunks_from : FragPlan → ℕ → ℕ → Bytes → List Bytes
chunks_from p zero idx payload = []
chunks_from p (suc left) idx payload =
    let n = chunk_len p idx (length payload) in
    take n payload ∷ chunks_from p left (idx + 1) (drop n payload)

unfoldable pub chunks : FragPlan → Bytes → List Bytes
unfolding chunks_from
chunks p payload = chunks_from p p.total 0 payload
