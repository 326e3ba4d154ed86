-- ===== src/Udp/Frag/Split.antt =====
-- src/udp/r2_frag.rs: a plan cuts the payload into its chunks, each in a place of its own.
use native.Mathlib.Nat.{mul-le-mul_right, suc-mul, add-zero, zero-add}
use my_quic.Common.{
  length-take, take_all, append-nil, take-append-drop, ℕ, zero, suc, ◌+◌, ◌-◌, ◌*◌, ◌≤◌, ◌<◌, ◌≡◌,
  refl, some, arith, leb, ◌==◌, if◌then◌else◌, Bool-cases, inl, inr, leb→le, length, take, drop,
  get_elem?, length-drop, drop-drop, sym, ap, ◌∙◌, List, [], ◌∷◌, ◌++◌,
}
use my_quic.Common.Index.{get_elem?-lt}
use my_quic.Common.Bytes.{Bytes}
use my_quic.Udp.Frag.{FragPlan, new, div_ceil, frame_total, chunk_len, chunks_from, chunks}

div_ceil_bounds : (m r : ℕ) → 0 < r → (m ≤ div_ceil m r * r) × (div_ceil m r * r < m + r)
div_ceil_bounds m r h = grind arith

-- Where the chunk of an index starts.
abbrev pub start : FragPlan → ℕ → ℕ
start p zero = 0
start p (suc i) = p.first_chunk + i * p.rest_chunk

-- What an accepted plan promises for a payload of `len` bytes and frames of at most `limit`.
pub record Planned (limit len : ℕ) (p : FragPlan) : Type 0 where
  pub first_pos : 0 < p.first_chunk
  pub rest_pos : 0 < p.rest_chunk
  pub first_fits : p.first_hdr + p.first_chunk ≡ limit
  pub rest_fits : p.rest_hdr + p.rest_chunk ≡ limit
  pub total_pos : 1 ≤ p.total
  pub total_small : p.total ≤ 64
  pub len_pos : 0 < len
  pub len_small : len ≤ 8192
  pub covers : len ≤ start p p.total
  pub inner : (i : ℕ) → i + 1 < p.total → start p (i + 1) < len

mul_step : (i k r : ℕ) → i < k → i * r + r ≤ k * r
mul_step i k r h =
    let step : suc i * r ≤ k * r = mul-le-mul_right r (omega arith) in omega (arith, suc-mul i r)

frame_total_bounds :
    (len a r : ℕ)
    → 0 < len
    → 0 < a
    → 0 < r
    → (1 ≤ frame_total len a r)
      × (len ≤ a + (frame_total len a r - 1) * r)
      × ((i : ℕ) → i + 1 < frame_total len a r → a + i * r < len)
frame_total_bounds len a r hl ha hr = elim (Bool-cases (leb len a)) [
  | inl e ↦ rw e (omega arith, omega (arith, leb→le len a), λ i h. absurd (omega arith))
  | inr e ↦
      let b = div_ceil_bounds (len - a) r hr in
      rw e (
        omega arith,
        ground (arith, b.0),
        λ i h. ground (arith, mul_step i (div_ceil (len - a) r) r, b.1, e),
      )
]

pub new-Planned :
    (limit first_hdr rest_hdr len : ℕ) {p : FragPlan}
    → new limit first_hdr rest_hdr len ≡ some p
    → Planned limit len p
unfolding new
new-Planned limit first_hdr rest_hdr len h =
    let a = limit - first_hdr in
    let r = limit - rest_hdr in ground (arith, frame_total_bounds len a r)

abbrev pub join : List Bytes → Bytes
join [] = []
join (c ∷ cs) = c ++ join cs

new-headers :
    (limit first_hdr rest_hdr len : ℕ) {p : FragPlan}
    → new limit first_hdr rest_hdr len ≡ some p
    → (p.first_hdr ≡ first_hdr) × (p.rest_hdr ≡ rest_hdr)
unfolding new
new-headers limit first_hdr rest_hdr len h = ground arith

-- The widest chunk of an index, and the chunk itself.
abbrev pub budget : FragPlan → ℕ → ℕ
budget p i = if i == 0 then p.first_chunk else p.rest_chunk

abbrev pub piece : FragPlan → Bytes → ℕ → Bytes
piece p payload i = take (chunk_len p i (length payload - start p i)) (drop (start p i) payload)

pub next_start : (p : FragPlan) (i : ℕ) → start p (suc i) ≡ start p i + budget p i
next_start p zero = omega arith
next_start p (suc i) = ground (arith, suc-mul i p.rest_chunk)

pub start_at : (p : FragPlan) (i j : ℕ) → i ≡ j → start p i ≡ start p j
start_at p i j e = ap (start p) e

module _ {limit : ℕ} (payload : Bytes) (p : FragPlan) (v : Planned limit (length payload) p) where
  -- A chunk that is not the last one is as wide as it can be.
  pub full_width :
      (i : ℕ) → i + 1 < p.total → chunk_len p i (length payload - start p i) ≡ budget p i
  full_width i h = ground (arith, next_start p i, v.inner i h)

  next_rest :
      (i : ℕ)
      → i + 1 < p.total
      → drop (chunk_len p i (length (drop (start p i) payload))) (drop (start p i) payload)
        ≡ drop (start p (i + 1)) payload
  next_rest i h =
      let e = start_at p (i + 1) (suc i) (omega arith) ∙ next_start p i in
      rw (length-drop (start p i) payload, full_width i h)
        (sym (drop-drop (start p i) (budget p i) (start p (i + 1)) payload e))

  chunks_from_at :
      (left idx k : ℕ)
      → idx + left ≡ p.total
      → k < left
      → get_elem? (chunks_from p left idx (drop (start p idx) payload)) k
        ≡ some (piece p payload (idx + k))
  unfolding chunks_from
  chunks_from_at zero idx k e h = absurd (omega arith)
  chunks_from_at (suc left) idx zero e h = rw (add-zero idx, length-drop (start p idx) payload)
  chunks_from_at (suc left) idx (suc k) e h =
      let ih = chunks_from_at left (idx + 1) k (omega arith) (omega arith) in
      let same : idx + 1 + k ≡ idx + suc k = omega arith in
      rw (next_rest idx (omega arith)) (ih ∙ ap (λ j. some (piece p payload j)) same)

  -- The last chunk is all that is left.
  pub last_rest :
      (i : ℕ)
      → i + 1 ≡ p.total
      → chunk_len p i (length payload - start p i) ≡ length payload - start p i
  last_rest i h =
      let e = start_at p (suc i) p.total (omega arith) in
      ground (arith, next_start p i, v.covers, e)

  pub start_in : (i : ℕ) → i < p.total → start p i < length payload
  start_in zero h = v.len_pos
  start_in (suc i) h =
      let e = start_at p (i + 1) (suc i) (omega arith) in omega (arith, v.inner i (omega arith), e)

  pub piece_width :
      (i : ℕ) → length (piece p payload i) ≡ chunk_len p i (length payload - start p i)
  piece_width i =
      let n = chunk_len p i (length payload - start p i) in
      ground (arith, length-take n (drop (start p i) payload), length-drop (start p i) payload)

  join-chunks_from :
      (left idx : ℕ)
      → idx + suc left ≡ p.total
      → join (chunks_from p (suc left) idx (drop (start p idx) payload))
        ≡ drop (start p idx) payload
  unfolding chunks_from
  join-chunks_from zero idx e =
      rw (append-nil, length-drop (start p idx) payload, last_rest idx (omega arith))
        (take_all (length payload - start p idx) (drop (start p idx) payload)
          (sym (length-drop (start p idx) payload)))
  join-chunks_from (suc left) idx e =
      let rest = drop (start p idx) payload in
      let n = chunk_len p idx (length rest) in
      let next = next_rest idx (omega arith) in
      let ih = join-chunks_from left (idx + 1) (omega arith) in
      ap (λ d. take n rest ++ d)
        (ap (λ d. join (chunks_from p (suc left) (idx + 1) d)) next ∙ ih ∙ sym next)
      ∙ take-append-drop n rest

  length-chunks_from : (left idx : ℕ) (rest : Bytes) → length (chunks_from p left idx rest) ≡ left
  unfolding chunks_from
  length-chunks_from zero idx rest = refl
  length-chunks_from (suc left) idx rest =
      ap suc (length-chunks_from left (idx + 1) (drop (chunk_len p idx (length rest)) rest))

  -- The chunk of each frame.
  pub chunks_at : (i : ℕ) → i < p.total → get_elem? (chunks p payload) i ≡ some (piece p payload i)
  unfolding chunks
  chunks_at i h =
      chunks_from_at p.total 0 i (omega arith) h ∙ ap (λ j. some (piece p payload j)) (zero-add i)

  join-chunks : join (chunks p payload) ≡ payload
  unfolding chunks
  join-chunks =
      let e : p.total ≡ suc (p.total - 1) = omega arith in
      rw e (join-chunks_from (p.total - 1) 0 (omega arith))

  piece_bounds :
      (i : ℕ)
      → i < p.total
      → (0 < length (piece p payload i))
        × ((if i == 0 then p.first_hdr else p.rest_hdr) + length (piece p payload i) ≤ limit)
  piece_bounds i h = rw (piece_width i) (ground (arith, start_in i h))

  chunk_bounds :
      (i : ℕ) (c : Bytes)
      → get_elem? (chunks p payload) i ≡ some c
      → {first_hdr rest_hdr : ℕ} → (p.first_hdr ≡ first_hdr) × (p.rest_hdr ≡ rest_hdr)
      → (0 < length c) × ((if i == 0 then first_hdr else rest_hdr) + length c ≤ limit)
  unfolding chunks
  chunk_bounds i c e hdrs =
      let inside = get_elem?-lt i (chunks p payload) e in
      let h : i < p.total = omega (arith, inside, length-chunks_from p.total 0 payload) in
      let same : piece p payload i ≡ c = cc (chunks_at i h, e) in
      let b = piece_bounds i h in ground (arith, ap length same, b.0, b.1, hdrs)

-- An accepted plan cuts a payload into as many chunks as it has frames, 1 to 64; the chunks in their
-- order are the payload; and every chunk has a byte and fits a frame of the limit under its header.
pub chunks-new :
    (limit first_hdr rest_hdr : ℕ) (payload : Bytes) {p : FragPlan}
    → new limit first_hdr rest_hdr (length payload) ≡ some p
    → (length (chunks p payload) ≡ p.total)
      × (1 ≤ p.total)
      × (p.total ≤ 64)
      × (join (chunks p payload) ≡ payload)
      × ((i : ℕ) (c : Bytes)
          → get_elem? (chunks p payload) i ≡ some c
          → (0 < length c) × ((if i == 0 then first_hdr else rest_hdr) + length c ≤ limit))
unfolding chunks
chunks-new limit first_hdr rest_hdr payload {p} h =
    let v = new-Planned limit first_hdr rest_hdr (length payload) h in
    (
      length-chunks_from payload p v p.total 0 payload,
      v.total_pos,
      v.total_small,
      join-chunks payload p v,
      λ i c e.
          chunk_bounds payload p v i c e (new-headers limit first_hdr rest_hdr (length payload) h),
    )
