-- ===== src/Udp/Reasm/Once.antt =====
-- src/udp/r2_reasm.rs: the frames of one payload that arrive, in any order, within the timeout.
use my_quic.Common.{
  ℕ, ◌-◌, ◌^◌, ◌≤◌, ◌<◌, ◌≡◌, refl, ap, ◌∙◌, sym, subst, true, false, Option, none, some, List, [],
  ◌∷◌, arith, length, All, Option-cases, inl, inr,
}
use my_quic.Common.Bytes.{Bytes}
use my_quic.Udp.Frag.{saturating_add}
use my_quic.Udp.Partial
use my_quic.Udp.Partial.{Layout, FragCtx, Partial, bit, is_complete}
use my_quic.Udp.Partial.Lists.{bit-replicate}
use my_quic.Udp.Partial.Sent.{Sent}
use my_quic.Udp.Partial.Bounded.{IsModest}
use my_quic.Udp.Partial.Weight.{widths, weight-replicate}
use my_quic.Udp.Reasm
use my_quic.Udp.Reasm.{
  FragKey, FragIn, R2Assembled, R2Reassembler, put, lookup, take_fragment, assembled, deliver,
  incoming_of, with_ctx, release, push_frame, live_at, expire_from, expire, slot_expired,
  prune_orders, queue_slot,
}
use my_quic.Udp.Reasm.Deliver.{Event, arrives, sweeps, closes_session, closes_flow, step, delivered}
use my_quic.Udp.Reasm.Taken.{
  IsSent, IsFrameOf, IsWhole, IsPart, Carried, new-IsTaken, with_ctx-IsTaken,
}
use my_quic.Udp.Reasm.Accept.{IsReady, key_eq_refl, accept_first, accept_part}
use my_quic.Udp.Reasm.Live.{IsLanding, IsLive, landed_all, prune_few}
use my_quic.Udp.Reasm.Lands.{tally, InTime, IsRunOf, Run, Outcome, Due, Ends, now_landed, lands}

module _ (s : Sent) (v : IsSent s) (several : 2 ≤ s.plan.total) (k : FragKey) (l : Layout)
    (m : IsModest l) (from_ms : ℕ) where
  same_weight :
      (p : Partial) (incoming : Option FragCtx)
      → IsLanding s v several p
      → IsPart s (with_ctx incoming p)
      → IsLanding s v several (with_ctx incoming p)
  same_weight p incoming h part = record {
    part = part;
    bounded = record {
      buf_small = h.bounded.buf_small;
      cap_small = h.bounded.cap_small;
      slots_small = h.bounded.slots_small;
      cost_small = h.bounded.cost_small;
      few = h.bounded.few;
    };
    weighed = h.weighed;
    above = h.above;
  }

  fresh-IsLanding :
      (incoming : Option FragCtx) (now_ms total : ℕ)
      → IsPart s (Partial.new total incoming now_ms)
      → IsLanding s v several (Partial.new total incoming now_ms)
  unfolding Partial.new
  fresh-IsLanding incoming now_ms total part = record {
    part = part;
    bounded = record {
      buf_small = omega arith;
      cap_small = omega arith;
      slots_small = omega arith;
      cost_small = omega arith;
      few = omega arith;
    };
    weighed = sym (weight-replicate (widths s.payload s.plan s.limit v) 0 64);
    above = λ i h. bit-replicate 64 i;
  }

  -- The context of a frame.
  carried :
      (d : Bytes) (f : FragIn)
      → IsFrameOf k s d f
      → (incoming : Option FragCtx) × (incoming_of f ≡ some incoming)
        × Carried s v several f incoming
  carried d f g = elim g.its_ctx [
    | inl bare ↦ (none, bare, (inl refl, λ z. cc (g.first_ctx z, bare)))
    | inr full ↦ (s.ctx, full, (inr refl, λ z. refl))
  ]

  live_since :
      (j : FragKey) (t : ℕ) (p q : Partial)
      → live_at j t ((k, p) ∷ []) ≡ some q
      → from_ms ≤ p.first_ms
      → from_ms ≤ t
  unfolding live_at lookup
  live_since j t p q e since = ground (arith, e)

  sweep_from :
      (order : List (FragKey × ℕ)) (r : R2Reassembler) (p : Partial) (now_ms : ℕ)
      → order ≡ r.order
      → IsLive s v several k r p
      → from_ms ≤ p.first_ms
      → InTime from_ms now_ms
      → IsLive s v several k (expire_from l now_ms order r) p
  unfolding expire_from
  sweep_from [] r p now_ms same live since time = live
  sweep_from ((j, t) ∷ order) r p now_ms same live since time =
      elim (Option-cases (live_at j t r.parts)) [
        | inl gone ↦
            rw (gone, expire_from)
              (rw gone (
                sweep_from order
                  (record r { order = order; order_bytes = r.order_bytes - l.order_slot_bytes }) p
                  now_ms refl
                  (record {
                    only = live.only;
                    same_held = live.same_held;
                    small = live.small;
                    one_slot = omega (arith, ap length same, live.one_slot);
                    slot_bytes = omega (arith, live.slot_bytes);
                    landing = live.landing;
                  })
                  since time))
        | inr (q, there) ↦
            let opened = live_since j t p q (ap (live_at j t) (sym live.only) ∙ there) since in
            let young : slot_expired now_ms t (some q) ≡ false = ground (arith, opened, time) in
            rw (there, expire_from) (rw (young, expire_from) live)
      ]

  -- A sweep in time takes nothing from a live reassembler.
  expire-IsLive :
      (r : R2Reassembler) (p : Partial) (now_ms : ℕ)
      → IsLive s v several k r p
      → from_ms ≤ p.first_ms
      → InTime from_ms now_ms
      → IsLive s v several k (expire l now_ms r) p
  unfolding expire
  expire-IsLive r p now_ms live since time =
      let swept = sweep_from r.order r p now_ms refl live since time in
      subst (λ x. IsLive s v several k x p)
        (sym (prune_few l (expire_from l now_ms r.order r) swept.one_slot)) swept

  put_only :
      (p q : Partial) (r : R2Reassembler) → r.parts ≡ (k, p) ∷ [] → put k q r.parts ≡ (k, q) ∷ []
  unfolding put
  put_only p q r only = ap (put k q) only ∙ rw (key_eq_refl k) refl

  live_ends :
      (es : List Event) (r : R2Reassembler) (p : Partial)
      → IsLive s v several k r p
      → from_ms ≤ p.first_ms
      → is_complete p ≡ false
      → Run s v several k l m from_ms es
      → Due s v several k l m from_ms es p
      → Outcome s v several k l m from_ms es r
  unfolding delivered step
  live_ends [] r p live since not_yet own due = absurd (
      cc
        (not_yet, landed_all s v several p live.landing (λ i inside. ground (arith, due i inside))))
  live_ends (arrives d f now_ms ∷ es) r p live since not_yet own due =
      let g = own.0.0 in
      let short = own.0.1 in
      let (incoming, e, c) = carried d f g in
      let clear : bit p.got f.idx ≡ false = ground (arith, due f.idx g.inside) in
      let p' = with_ctx incoming p in
      let t = with_ctx-IsTaken s v several f incoming p live.landing.part c in
      let h =
        same_weight p incoming live.landing
          (record { tidy = t.tidy; some_ctx = t.some_ctx; known_ctx = t.known_ctx }) in
      let ready : IsReady s v several k d f g short r p = record {
        part = live.landing.part;
        bounded = live.landing.bounded;
        weighed = live.landing.weighed;
        modest_held = omega (arith, live.same_held, live.small, live.slot_bytes);
      } in
      let puts =
        put_only p (now_landed s v several k l m from_ms d f g short p' t h clear) r live.only in
      let entered =
        accept_part s v several k d f g short l m incoming e now_ms r p live.only ready clear c.0 in
      subst (Ends s v several k l m from_ms d f g short p' t h clear es) (sym entered) (
        lands s v several k l m from_ms d f g short p' t h clear es false now_ms r live.one_slot
          live.slot_bytes puts live.same_held own.1 since due
          (λ r' q live' since' more due'. live_ends es r' q live' since' more own.1 due'))
  live_ends (sweeps now_ms ∷ es) r p live since not_yet own due =
      live_ends es (expire l now_ms r) p (expire-IsLive r p now_ms live since own.0) since not_yet
        own.1 due
  live_ends (closes_session x ∷ es) r p live since not_yet own due = absurd own.0
  live_ends (closes_flow x ∷ es) r p live since not_yet own due = absurd own.0

  sweep_new : (now_ms : ℕ) → expire l now_ms Reasm.new ≡ Reasm.new
  unfolding expire expire_from prune_orders
  sweep_new now_ms = ground arith

  begins_at :
      (d : Bytes) (f : FragIn) (now_ms : ℕ) (es : List Event)
      → Run s v several k l m from_ms (arrives d f now_ms ∷ es)
      → ((i : ℕ) → i < s.plan.total → tally i (arrives d f now_ms ∷ es) ≡ 1)
      → (g : IsFrameOf k s d f) → (short : length d < 2 ^ 64) → (incoming : Option FragCtx)
      → incoming_of f ≡ some incoming
      → Carried s v several f incoming
      → Outcome s v several k l m from_ms (arrives d f now_ms ∷ es) Reasm.new
  unfolding delivered step Partial.new put
  begins_at d f now_ms es own once g short incoming e c =
      let p' = Partial.new f.total incoming now_ms in
      let t = new-IsTaken s v several f incoming now_ms g.same_total c in
      let clear : bit p'.got f.idx ≡ false = bit-replicate 64 f.idx in
      let h =
        fresh-IsLanding incoming now_ms f.total
          (record { tidy = t.tidy; some_ctx = t.some_ctx; known_ctx = t.known_ctx }) in
      let due : Due s v several k l m from_ms (arrives d f now_ms ∷ es) p' =
        λ i inside. ground (arith, once i inside, bit-replicate 64 i) in
      let slot : saturating_add 0 l.order_slot_bytes ≤ 128 = ground (arith, m.slot_small) in
      let entered = accept_first s v several k d f g short l m incoming e now_ms in
      subst (Ends s v several k l m from_ms d f g short p' t h clear es) (sym entered) (
        lands s v several k l m from_ms d f g short p' t h clear es true now_ms Reasm.new
          (omega arith) slot refl refl own.1 own.0.2.0 due
          (λ r' q live since more due'. live_ends es r' q live since more own.1 due'))

  begins :
      (es : List Event)
      → Run s v several k l m from_ms es
      → ((i : ℕ) → i < s.plan.total → tally i es ≡ 1)
      → Outcome s v several k l m from_ms es Reasm.new
  unfolding delivered step
  begins [] own once = absurd (cc (once 0 (omega arith)))
  begins (arrives d f now_ms ∷ es) own once =
      let g = own.0.0 in
      let short = own.0.1 in
      let (incoming, e, c) = carried d f g in begins_at d f now_ms es own once g short incoming e c
  begins (sweeps now_ms ∷ es) own once =
      subst (Outcome s v several k l m from_ms es) (sym (sweep_new now_ms)) (begins es own.1 once)
  begins (closes_session x ∷ es) own once = absurd own.0
  begins (closes_flow x ∷ es) own once = absurd own.0

-- Let a payload be split into several chunks by an accepted plan, and let one frame of each chunk, in
-- a buffer shorter than 2^64 bytes, arrive at a new reassembler, in any order and with sweeps between,
-- all at times from `from_ms` up to the timeout. Let the types be small and the allocator give a vector
-- at most twice what it must hold, and eight. Then exactly one payload is delivered, and it is whole:
-- its bytes, its id and its session and address are those that were sent.
pub delivered-tally :
    (s : Sent) (k : FragKey) (l : Layout) (from_ms : ℕ) (es : List Event)
    → IsSent s
    → 2 ≤ s.plan.total
    → IsModest l
    → All (IsRunOf k s from_ms) es
    → ((i : ℕ) → i < s.plan.total → tally i es ≡ 1)
    → (a : R2Assembled) × (delivered l es Reasm.new ≡ a ∷ []) × IsWhole k s a
delivered-tally s k l from_ms es v several m own once = begins s v several k l m from_ms es own once
