-- ===== src/Udp/Partial/Sent.antt =====
-- src/udp/r2_reasm.rs: where the chunks of a planned payload belong in the buffer.
use my_quic.Common.{
  ℕ, zero, suc, ◌+◌, ◌-◌, ◌*◌, ◌≤◌, ◌<◌, ◌≡◌, refl, ap, ◌∙◌, true, Option, none, some, arith, ltb,
  leb, length, get_elem?, drop, Bool-cases, inl, inr, subst, ltb→lt, leb→le,
}
use my_quic.Common.Bytes.{Bytes}
use my_quic.Common.Index.{get_elem?-lt, get_elem?-some, get_elem?-take, get_elem?-drop_at}
use my_quic.Udp.Frag.{FragPlan, chunk_len}
use my_quic.Udp.Frag.Split.{
  start, Planned, piece, piece_width, full_width, last_rest, next_start, start_in, start_at,
}
use my_quic.Udp.Partial.{FragCtx, written, buf_write, pos_of}
use my_quic.Udp.Partial.Lists.{get_elem?-written, get_elem?-written_other, length-written}

-- A payload that a sender split for frames of the limit, and the context that its first frame
-- carries.
pub record Sent : Type 0 where
  pub limit : ℕ
  pub plan : FragPlan
  pub payload : Bytes
  pub ctx : Option FragCtx

-- The buffer has the payload's bytes from `lo` to `hi`.
abbrev pub Holds : Bytes → Bytes → ℕ → ℕ → Type 0
Holds payload buf lo hi = (j : ℕ) → lo ≤ j → j < hi → get_elem? buf j ≡ get_elem? payload j

abbrev pub Agrees : ℕ → Option ℕ → Type 0
Agrees w none = Unit
Agrees w (some x) = x ≡ w

module _ (payload : Bytes) (p : FragPlan) (limit : ℕ) (v : Planned limit (length payload) p) where
  abbrev pub stop : ℕ → ℕ
  stop i = start p i + length (piece p payload i)

  pub piece_at :
      (i k : ℕ)
      → k < length (piece p payload i)
      → get_elem? (piece p payload i) k ≡ get_elem? payload (start p i + k)
  piece_at i k h =
      let n = chunk_len p i (length payload - start p i) in
      get_elem?-take n (drop (start p i) payload) k (rw (piece_width payload p v i) at h)
      ∙ get_elem?-drop_at (start p i) payload (start p i + k) k refl

  pub stop_in : (i : ℕ) → i < p.total → (stop i ≤ length payload) × (start p i < stop i)
  stop_in i h = rw (piece_width payload p v i) (ground (arith, start_in payload p v i h))

  pub stop_next : (i : ℕ) → i + 1 < p.total → stop i ≡ start p (i + 1)
  stop_next i h = omega (
    arith,
    piece_width payload p v i,
    full_width payload p v i h,
    next_start p i,
    start_at p (i + 1) (suc i) (omega arith),
  )

  pub stop_last : (i : ℕ) → i + 1 ≡ p.total → stop i ≡ length payload
  stop_last i h = omega (
    arith,
    piece_width payload p v i,
    last_rest payload p v i h,
    start_in payload p v i (omega arith),
  )

  pub first_width : 2 ≤ p.total → length (piece p payload 0) ≡ p.first_chunk
  first_width h = piece_width payload p v 0 ∙ full_width payload p v 0 (omega arith)

  pub middle_width : (i : ℕ) → 1 ≤ i → i + 1 < p.total → length (piece p payload i) ≡ p.rest_chunk
  middle_width i one h = ground (arith, piece_width payload p v i, full_width payload p v i h)

  -- A write of a chunk at its place adds the chunk,
  pub written-Holds_new :
      (buf : Bytes) (i : ℕ)
      → Holds payload (written buf (start p i) (piece p payload i)) (start p i) (stop i)
  written-Holds_new buf i j above below =
      let e : start p i + (j - start p i) ≡ j = omega arith in
      let k = j - start p i in
      let inside : k < length (piece p payload i) = omega arith in
      subst (λ m. get_elem? (written buf (start p i) (piece p payload i)) m ≡ get_elem? payload m) e
        (get_elem?-written buf (start p i) (piece p payload i) k inside ∙ piece_at i k inside)

  -- and keeps what the buffer holds.
  pub written-Holds_old :
      (buf : Bytes) (i lo hi : ℕ)
      → hi ≤ length payload
      → Holds payload buf lo hi
      → Holds payload (written buf (start p i) (piece p payload i)) lo hi
  written-Holds_old buf i lo hi small held j above below =
      let (x, there) = get_elem?-some j payload (omega arith) in
      let inside = get_elem?-lt j buf (held j above below ∙ there) in
      let kept = get_elem?-written_other buf (start p i) (piece p payload i) j inside in
      elim (Bool-cases (ltb j (start p i))) [
        | inl before ↦ kept (inl (ltb→lt j (start p i) before)) ∙ held j above below
        | inr e ↦ elim (Bool-cases (leb (stop i) j)) [
          | inl after ↦ kept (inr (leb→le (stop i) j after)) ∙ held j above below
          | inr e' ↦ written-Holds_new buf i j (ground (arith, e)) (ground (arith, e'))
        ]
      ]

  pub written_within :
      (buf : Bytes) (i : ℕ)
      → i < p.total
      → length buf ≤ length payload
      → length (written buf (start p i) (piece p payload i)) ≤ length payload
  written_within buf i h small =
      omega (arith, length-written buf (start p i) (piece p payload i), stop_in i h)

  pub buf_write_ok :
      (buf : Bytes) (i : ℕ)
      → i < p.total
      → buf_write buf (start p i) (piece p payload i)
        ≡ (true, written buf (start p i) (piece p payload i))
  unfolding buf_write
  buf_write_ok buf i h = ground (arith, stop_in i h, v.len_small)

  -- A position that is known is the chunk's own,
  pub pos_of-some :
      (first_len unit : Option ℕ) (i : ℕ) {pos : ℕ}
      → Agrees p.first_chunk first_len
      → Agrees p.rest_chunk unit
      → pos_of first_len unit i ≡ some pos
      → pos ≡ start p i
  unfolding pos_of
  pos_of-some first_len unit zero a u h = cc
  pos_of-some none unit (suc i) a u h = absurd (ground arith)
  pos_of-some (some x) none (suc i) a u h = ground arith
  pos_of-some (some x) (some y) (suc i) a u h = ground (arith, ap (λ (w : ℕ). i * w) u)

  -- and it is known once the first chunk and, past index 1, a middle one have landed.
  pub pos_of_known :
      (unit : Option ℕ) (i : ℕ)
      → i < p.total
      → (2 ≤ i → unit ≡ some p.rest_chunk)
      → pos_of (some p.first_chunk) unit i ≡ some (start p i)
  unfolding pos_of
  pos_of_known unit zero h u = refl
  pos_of_known unit (suc zero) h u = ground (arith, start_in payload p v 1 h, v.len_small)
  pos_of_known unit (suc (suc i)) h u =
      rw (u (omega arith)) (ground (arith, start_in payload p v (suc (suc i)) h, v.len_small))
