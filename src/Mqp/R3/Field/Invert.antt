-- ===== src/Mqp/R3/Field/Invert.antt =====
-- src/mqp/r3.rs, the fixed-width helpers: what a read that succeeded says of the buffer.
use my_quic.Common.{
  ℕ, ◌+◌, ◌-◌, ◌^◌, ◌≤◌, ◌<◌, ◌≡◌, refl, ap, sym, ◌∙◌, some, [], ◌∷◌, ◌++◌, arith, length, drop,
  take, bit_and, length-drop, All-drop, String,
}
use my_quic.Common.Bits.{bit_and_class, bit_and_mid, bit_and_nibble}
use my_quic.Common.Bytes.{Bytes, IsBytes, IsByte, from_le, u16_le, u32_le, get_range, drop_step}
use my_quic.Mqp.Error.{ok}
use my_quic.Mqp.R3.Field.{get_u16, get_u32, ext_flags}

get_range_inv :
    (b : Bytes) (off end : ℕ) (s : Bytes)
    → get_range b off end ≡ some s
    → (off ≤ end) × (end ≤ length b) × (s ≡ take (end - off) (drop off b))
unfolding get_range
get_range_inv b off end s e = ground arith

-- A number of `k` bytes stands at `off`.
pub record U16At (b : Bytes) (off n off' : ℕ) : Type 0 where
  pub bytes : drop off b ≡ u16_le n ++ drop (off + 2) b
  pub next : off' ≡ off + 2
  pub lt : n < 65536

pub record U32At (b : Bytes) (off n off' : ℕ) : Type 0 where
  pub bytes : drop off b ≡ u32_le n ++ drop (off + 4) b
  pub next : off' ≡ off + 4
  pub lt : n < 2 ^ 32

two_bytes :
    (c : Bytes)
    → 2 ≤ length c
    → IsBytes c
    → (rest : Bytes) × (c ≡ u16_le (from_le (take 2 c)) ++ rest) × (from_le (take 2 c) < 65536)
two_bytes [] h hb = absurd (omega arith)
two_bytes (x ∷ []) h hb = absurd (omega arith)
two_bytes (x ∷ y ∷ c) h (hx, (hy, hc)) = (c, ground arith, omega arith)

four_bytes :
    (c : Bytes)
    → 4 ≤ length c
    → IsBytes c
    → (rest : Bytes) × (c ≡ u32_le (from_le (take 4 c)) ++ rest) × (from_le (take 4 c) < 2 ^ 32)
four_bytes [] h hb = absurd (omega arith)
four_bytes (x ∷ []) h hb = absurd (omega arith)
four_bytes (x ∷ y ∷ []) h hb = absurd (omega arith)
four_bytes (x ∷ y ∷ z ∷ []) h hb = absurd (omega arith)
four_bytes (x ∷ y ∷ z ∷ w ∷ c) h (hx, (hy, (hz, (hw, hc)))) = (c, ground arith, omega arith)

get_u16_parts :
    (b : Bytes) (off n off' : ℕ)
    → get_u16 b off ≡ ok (n, off')
    → (s : Bytes) × (get_range b off (off + 2) ≡ some s) × (n ≡ from_le s) × (off' ≡ off + 2)
unfolding get_u16
get_u16_parts b off n off' e = ground arith

pub get_u16_inv :
    (b : Bytes) (off n off' : ℕ) → IsBytes b → get_u16 b off ≡ ok (n, off') → U16At b off n off'
get_u16_inv b off n off' hb e =
    let (s, eg, en, eo) = get_u16_parts b off n off' e in
    let (hl, hr, es) = get_range_inv b off (off + 2) s eg in
    let two : off + 2 - off ≡ 2 = omega arith in
    let es' : s ≡ take 2 (drop off b) = rw two at es in
    let (rest, ec, hn) =
      two_bytes (drop off b) (omega (arith, length-drop off b)) (All-drop IsByte off b hb) in
    let em : n ≡ from_le (take 2 (drop off b)) = en ∙ ap from_le es' in
    let er : drop (off + 2) b ≡ rest =
      drop_step b off 2 (u16_le (from_le (take 2 (drop off b)))) rest ec refl in
    record { bytes = rw er (ec ∙ ap (λ m. u16_le m ++ rest) (sym em)); next = eo; lt = omega arith }

get_u32_parts :
    (b : Bytes) (off n off' : ℕ)
    → get_u32 b off ≡ ok (n, off')
    → (s : Bytes) × (get_range b off (off + 4) ≡ some s) × (n ≡ from_le s) × (off' ≡ off + 4)
unfolding get_u32
get_u32_parts b off n off' e = ground arith

pub get_u32_inv :
    (b : Bytes) (off n off' : ℕ) → IsBytes b → get_u32 b off ≡ ok (n, off') → U32At b off n off'
get_u32_inv b off n off' hb e =
    let (s, eg, en, eo) = get_u32_parts b off n off' e in
    let (hl, hr, es) = get_range_inv b off (off + 4) s eg in
    let four : off + 4 - off ≡ 4 = omega arith in
    let es' : s ≡ take 4 (drop off b) = rw four at es in
    let (rest, ec, hn) =
      four_bytes (drop off b) (omega (arith, length-drop off b)) (All-drop IsByte off b hb) in
    let em : n ≡ from_le (take 4 (drop off b)) = en ∙ ap from_le es' in
    let er : drop (off + 4) b ≡ rest =
      drop_step b off 4 (u32_le (from_le (take 4 (drop off b)))) rest ec refl in
    record { bytes = rw er (ec ∙ ap (λ m. u32_le m ++ rest) (sym em)); next = eo; lt = omega arith }

-- A first byte is fixed by its class, its reserved bits and its flags.
pub first_byte :
    (b0 flags class : ℕ) (text : String)
    → b0 < 256
    → bit_and b0 0xC0 ≡ class
    → ext_flags b0 text ≡ ok flags
    → b0 ≡ class + flags
first_byte b0 flags class text h hc e =
    ground (arith, bit_and_class b0 h, bit_and_mid b0 h, bit_and_nibble b0 h)
