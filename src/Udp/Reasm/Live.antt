-- ===== src/Udp/Reasm/Live.antt =====
-- src/udp/r2_reasm.rs: a fragment that is due lands, and the reassembler stays as it should.
use my_quic.Common.{
  ℕ, ◌+◌, ◌-◌, ◌^◌, ◌≤◌, ◌<◌, ◌≡◌, ◌||◌, refl, ap, ◌∙◌, sym, subst, Bool, true, false, some, [],
  ◌∷◌, arith, ltb, ◌==◌, length, Bool-cases, Option-cases, inl, inr,
}
use native.Mathlib.Nat.{zero-add}
use my_quic.Common.Bytes.{Bytes}
use my_quic.Udp.Frag.{saturating_add}
use my_quic.Udp.Frag.Split.{piece, start}
use my_quic.Udp.Partial.{Layout, Partial, bit, pos_of, arrived, land, is_complete}
use my_quic.Udp.Partial.Lists.{bit-set_bit, bits_eq-ones}
use my_quic.Udp.Partial.Sent.{Sent, stop_in, pos_of-some}
use my_quic.Udp.Partial.Arrive.{after-first_ok, after-unit_ok}
use my_quic.Udp.Partial.Bounded.{IsModest, Bounded, Grown, land-Grown}
use my_quic.Udp.Partial.Weight.{widths, weight, weight-set_bit}
use my_quic.Udp.Reasm.{
  FragKey, FragIn, R2Reassembler, put, position, past_cap, take_fragment, prune_orders, queue_slot,
  deliver,
}
use my_quic.Udp.Reasm.Taken.{IsSent, IsFrameOf, IsPart, IsTaken, landed-IsPart}
use my_quic.Udp.Reasm.Accept.{chunk_is, room_in_payload}

pub prune_few : (l : Layout) (r : R2Reassembler) → length r.order ≤ 1 → prune_orders l r ≡ r
unfolding prune_orders
prune_few l r h = ground arith

module _ (s : Sent) (v : IsSent s) (several : 2 ≤ s.plan.total) where
  abbrev pub weigh : Partial → ℕ
  weigh p = weight (widths s.payload s.plan s.limit v) 0 p.got

  -- What holds of a partial between fragments.
  pub record IsLanding (p : Partial) : Type 0 where
    pub part : IsPart s p
    pub bounded : Bounded p
    pub weighed : p.bytes ≡ weigh p
    pub above : (i : ℕ) → s.plan.total ≤ i → bit p.got i ≡ false

  -- Its partial is all that the reassembler has.
  pub record IsLive (k : FragKey) (r : R2Reassembler) (p : Partial) : Type 0 where
    pub only : r.parts ≡ (k, p) ∷ []
    pub same_held : r.held ≡ p.retained
    pub small : p.retained ≤ 65536
    pub one_slot : length r.order ≤ 1
    pub slot_bytes : r.order_bytes ≤ 128
    pub landing : IsLanding p

  -- A partial that has all its chunks is complete.
  pub landed_all :
      (p : Partial)
      → IsLanding p
      → ((i : ℕ) → i < s.plan.total → bit p.got i ≡ true)
      → is_complete p ≡ true
  unfolding is_complete
  landed_all p h every =
      let fits = h.part.tidy.fits in
      bits_eq-ones 64 p.total p.got fits.mask
        (λ i. elim (Bool-cases (ltb i p.total)) [
          | inl e ↦ every i (ground (arith, e, fits.same_total)) ∙ sym e
          | inr e ↦ h.above i (ground (arith, e, fits.same_total)) ∙ sym e
        ])
        (omega (arith, fits.same_total, v.total_small))

  module _ (k : FragKey) (d : Bytes) (f : FragIn) (g : IsFrameOf k s d f)
      (short : length d < 2 ^ 64) (l : Layout) (m : IsModest l) (p : Partial)
      (t : IsTaken s v several f p) (b : Bounded p) (w : p.bytes ≡ weigh p)
      (above : (i : ℕ) → s.plan.total ≤ i → bit p.got i ≡ false)
      (clear : bit p.got f.idx ≡ false) where
    abbrev pub landed : Partial
    landed = land l f.idx f.chunk (position p f) p

    taken-IsPart : IsPart s p
    taken-IsPart = record { tidy = t.tidy; some_ctx = t.some_ctx; known_ctx = t.known_ctx }

    in_mask : f.idx < length p.got
    in_mask = omega (arith, t.tidy.fits.mask, v.total_small, g.inside)

    grown : Grown l m p b f.idx f.chunk in_mask clear landed
    grown =
        land-Grown l m p b f.idx f.chunk in_mask clear (position p f)
          (omega (arith, t.tidy.fits.mask))

    pub landed_ms : landed.first_ms ≡ p.first_ms
    landed_ms = grown.still_ms

    pub bit_landed : (i : ℕ) → bit landed.got i ≡ (f.idx == i || bit p.got i)
    bit_landed i = ap (λ x. bit x i) grown.more_got ∙ bit-set_bit p.got f.idx i in_mask

    pub landed_small : landed.retained ≤ 65536
    landed_small =
        grown.small (room_in_payload s v several k d f g short p taken-IsPart w clear)
          (omega (arith, t.tidy.fits.mask))

    chunk_own : f.chunk ≡ piece s.plan s.payload f.idx
    chunk_own = chunk_is s v several k d f g short

    more_weight : weigh landed ≡ weigh p + length (piece s.plan s.payload f.idx)
    more_weight =
        let ws = widths s.payload s.plan s.limit v in
        let zero_off : ws (0 + f.idx) ≡ ws f.idx = ap ws (zero-add f.idx) in
        ap (weight ws 0) grown.more_got
        ∙ omega (arith, weight-set_bit ws 0 p.got f.idx in_mask clear, zero_off)

    pub landed-IsLanding : IsLanding landed
    landed-IsLanding = record {
      part = landed-IsPart s v several l k d f g p t;
      bounded = grown.bounded;
      weighed = omega (arith, grown.more_bytes, w, more_weight, ap length chunk_own);
      above = λ i h. bit_landed i ∙ ground (arith, above i h, g.inside);
    }

    at_start : {pos : ℕ} → position p f ≡ some pos → pos ≡ start s.plan f.idx
    unfolding position arrived
    at_start {pos} e =
        let there =
          subst
            (λ c. pos_of (arrived f.idx c p).first_len (arrived f.idx c p).unit f.idx ≡ some pos)
            chunk_own e in
        pos_of-some s.payload s.plan s.limit v _ _ f.idx
          (after-first_ok s.payload s.plan s.limit v l several p t.tidy.fits f.idx g.inside)
          (after-unit_ok s.payload s.plan s.limit v l several p t.tidy.fits f.idx g.inside) there

    not_past : past_cap (position p f) (length f.chunk) ≡ false
    not_past = elim (Option-cases (position p f)) [
      | inl e ↦ rw e refl
      | inr (pos, e) ↦
          let b = stop_in s.payload s.plan s.limit v f.idx g.inside in
          rw e (ground (arith, at_start e, b.0, v.len_small, ap length chunk_own))
    ]

    -- The fragment lands, and a complete payload is delivered.
    module _ (is_new : Bool) (now_ms : ℕ) (r : R2Reassembler)
        (one_slot : length (queue_slot l is_new k now_ms r).order ≤ 1)
        (slot_bytes : (queue_slot l is_new k now_ms r).order_bytes ≤ 128)
        (puts : put k landed r.parts ≡ (k, landed) ∷ []) (held : r.held ≡ p.retained) where
      abbrev pub kept : R2Reassembler
      kept = record r {
        parts = put k landed r.parts;
        held = saturating_add (r.held - p.retained) landed.retained;
      }

      abbrev pub next : R2Reassembler
      next = queue_slot l is_new k now_ms kept

      next_order : next.order ≡ (queue_slot l is_new k now_ms r).order
      next_order =
          elim is_new
            as (λ b. (queue_slot l b k now_ms kept).order ≡ (queue_slot l b k now_ms r).order) [
              | true ↦ refl
              | false ↦ refl
            ]

      next_slots : next.order_bytes ≡ (queue_slot l is_new k now_ms r).order_bytes
      next_slots =
          elim is_new
            as (λ b.
              (queue_slot l b k now_ms kept).order_bytes
              ≡ (queue_slot l b k now_ms r).order_bytes) [ true ↦ refl | false ↦ refl ]

      next_parts : next.parts ≡ (k, landed) ∷ []
      next_parts = elim is_new as (λ b. (queue_slot l b k now_ms kept).parts ≡ (k, landed) ∷ []) [
        | true ↦ puts
        | false ↦ puts
      ]

      next_held : next.held ≡ landed.retained
      next_held = elim is_new as (λ b. (queue_slot l b k now_ms kept).held ≡ landed.retained) [
        | true ↦ ground (arith, held, landed_small)
        | false ↦ ground (arith, held, landed_small)
      ]

      pub next-IsLive : IsLive k next landed
      next-IsLive = record {
        only = next_parts;
        same_held = next_held;
        small = landed_small;
        one_slot = omega (arith, ap length next_order, one_slot);
        slot_bytes = omega (arith, next_slots, slot_bytes);
        landing = landed-IsLanding;
      }

      pub take_fragment_due : take_fragment l k is_new f p now_ms r ≡ deliver k f landed next
      unfolding take_fragment
      take_fragment_due =
          rw not_past (ap (deliver k f landed) (prune_few l next next-IsLive.one_slot))
