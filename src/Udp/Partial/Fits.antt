-- ===== src/Udp/Partial/Fits.antt =====
-- src/udp/r2_reasm.rs: what a partial is while the chunks of one planned payload arrive.
use my_quic.Common.{
  ℕ, ◌+◌, ◌≤◌, ◌<◌, ◌≡◌, ◌⊎◌, ap, ◌∙◌, sym, Bool, true, ◌||◌, some, arith, ◌==◌, length, get_elem?,
  All, Bool-cases, Option-cases, inl, inr, ==→eq, subst,
}
use my_quic.Common.Bytes.{Bytes}
use my_quic.Udp.Frag.{FragPlan}
use my_quic.Udp.Frag.Split.{start, Planned, piece}
use my_quic.Udp.Partial.{
  Layout, PendingChunk, Partial, bit, pos_of, written, swap_remove, put_bytes, placement,
}
use my_quic.Udp.Partial.Lists.{waits, waits-swap_remove, All-swap_remove, All-get_elem?}
use my_quic.Udp.Partial.Sent.{
  Holds, Agrees, stop_in, written-Holds_old, written-Holds_new, written_within, buf_write_ok,
  pos_of-some,
}

module _ (payload : Bytes) (plan : FragPlan) where
  abbrev pub IsPiece : PendingChunk → Type 0
  IsPiece c = (c.idx < plan.total) × (c.bytes ≡ piece plan payload c.idx)

  -- The buffer holds the whole chunk of an index.
  abbrev pub HoldsPiece : Bytes → ℕ → Type 0
  HoldsPiece buf i = Holds payload buf (start plan i) (start plan i + length (piece plan payload i))

  abbrev pub Kept : Partial → ℕ → Type 0
  Kept p i = (waits i p.pending ≡ true) ⊎ HoldsPiece p.buf i

  -- The chunks that landed are in their places or queued, and what they determine is as planned.
  pub record Fits (p : Partial) : Type 0 where
    pub same_total : p.total ≡ plan.total
    pub mask : length p.got ≡ 64
    pub first_ok : Agrees plan.first_chunk p.first_len
    pub first_known : bit p.got 0 ≡ true → p.first_len ≡ some plan.first_chunk
    pub unit_ok : Agrees plan.rest_chunk p.unit
    pub unit_known :
        (i : ℕ) → 1 ≤ i → i + 1 < plan.total → bit p.got i ≡ true → p.unit ≡ some plan.rest_chunk
    pub within : length p.buf ≤ length payload
    pub landed : (i : ℕ) → i < plan.total → bit p.got i ≡ true → Kept p i
    pub genuine : All IsPiece p.pending

module _ (payload : Bytes) (plan : FragPlan) (limit : ℕ) (v : Planned limit (length payload) plan)
    (l : Layout) where
  pub put_bytes-buf :
      (p : Partial) (i : ℕ)
      → i < plan.total
      → (put_bytes l (start plan i) (piece plan payload i) p).buf
        ≡ written p.buf (start plan i) (piece plan payload i)
  put_bytes-buf p i h = ap (λ (r : Bool × Bytes). r.1) (buf_write_ok payload plan limit v p.buf i h)

  -- What a write of chunk `i` does to what is kept of chunk `j`.
  pub written-Kept :
      (p q : Partial) (i j : ℕ)
      → i < plan.total
      → j < plan.total
      → q.buf ≡ written p.buf (start plan i) (piece plan payload i)
      → (waits j p.pending ≡ true → (i == j || waits j q.pending) ≡ true)
      → Kept payload plan p j
      → Kept payload plan q j
  written-Kept p q i j hi hj same queue (inl w) = elim (Bool-cases (i == j)) [
    | inl e ↦
        let new_bytes = written p.buf (start plan i) (piece plan payload i) in
        let moved =
          subst (λ m. HoldsPiece payload plan new_bytes m) (==→eq i j e)
            (written-Holds_new payload plan limit v p.buf i) in
        inr (subst (λ b. HoldsPiece payload plan b j) (sym same) moved)
    | inr e ↦ inl (ground (arith, queue w, e))
  ]
  written-Kept p q i j hi hj same queue (inr held) =
      let hi' = (stop_in payload plan limit v j hj).0 in
      let old =
        written-Holds_old payload plan limit v p.buf i (start plan j)
          (start plan j + length (piece plan payload j)) hi' held in
      inr (subst (λ b. HoldsPiece payload plan b j) (sym same) old)

  placement-pos_of :
      (p : Partial) (c : PendingChunk) {pos : ℕ}
      → placement p c ≡ some pos
      → pos_of p.first_len p.unit c.idx ≡ some pos
  unfolding placement
  placement-pos_of p c e = elim (Option-cases (pos_of p.first_len p.unit c.idx)) [
    | inl none_there ↦ absurd (cc (rw (none_there, placement) at e))
    | inr (x, there) ↦ ground (arith, rw (there, placement) at e)
  ]

  put-Fits :
      (p : Partial) (k : ℕ) (c : PendingChunk)
      → Fits payload plan p
      → get_elem? p.pending k ≡ some c
      → IsPiece payload plan c
      → Fits payload plan (
          put_bytes l
            (start plan c.idx)
            (piece plan payload c.idx)
            (record p { pending = swap_remove k p.pending }))
  put-Fits p k c f e own = record {
    same_total = f.same_total;
    mask = f.mask;
    first_ok = f.first_ok;
    first_known = f.first_known;
    unit_ok = f.unit_ok;
    unit_known = f.unit_known;
    within =
        rw (put_bytes-buf p c.idx own.0)
          (written_within payload plan limit v p.buf c.idx own.0 f.within);
    landed = λ j hj b.
        written-Kept p
          (put_bytes l (start plan c.idx) (piece plan payload c.idx)
            (record p { pending = swap_remove k p.pending }))
          c.idx j own.0 hj (put_bytes-buf p c.idx own.0)
          (λ w. sym (waits-swap_remove j k p.pending e) ∙ w) (f.landed j hj b);
    genuine = All-swap_remove (IsPiece payload plan) k p.pending f.genuine;
  }

  -- The loop's placement of a queued chunk.
  pub placed-Fits :
      (p : Partial) (k : ℕ) (c : PendingChunk) {pos : ℕ}
      → Fits payload plan p
      → get_elem? p.pending k ≡ some c
      → placement p c ≡ some pos
      → Fits payload plan (put_bytes l pos c.bytes (record p { pending = swap_remove k p.pending }))
  placed-Fits p k c {pos} f e at_pos =
      let own = All-get_elem? (IsPiece payload plan) k p.pending f.genuine e in
      let pos_eq =
        pos_of-some payload plan limit v p.first_len p.unit c.idx f.first_ok f.unit_ok
          (placement-pos_of p c at_pos) in
      let rest : Partial = record p { pending = swap_remove k p.pending } in
      subst (λ b. Fits payload plan (put_bytes l pos b rest)) (sym own.1)
        (subst (λ m. Fits payload plan (put_bytes l m (piece plan payload c.idx) rest)) (sym pos_eq)
          (put-Fits p k c f e own))
