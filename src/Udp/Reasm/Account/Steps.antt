-- ===== src/Udp/Reasm/Account/Steps.antt =====
-- src/udp/r2_reasm.rs: the counters after any events.
use my_quic.Common.{
  ℕ, ◌+◌, ◌^◌, ◌≤◌, ◌<◌, ◌≡◌, refl, Bool, true, false, ◌||◌, ltb, ◌&&◌, not, Option, List, [], ◌∷◌,
  arith, ◌==◌, length, Bool-cases, Option-cases, inl, inr,
}
use my_quic.Common.Bytes.{Bytes}
use my_quic.Udp.Frag.{saturating_add}
use my_quic.Udp.Partial
use my_quic.Udp.Partial.{Layout, FragCtx, Partial, bit, is_middle}
use my_quic.Udp.Partial.Lists.{bit-replicate}
use my_quic.Udp.Partial.Bounded.{IsModest}
use my_quic.Udp.Reasm
use my_quic.Udp.Reasm.{
  FragKey, FragIn, Parts, R2Reassembler, R2Assembled, key_eq, lookup, make_room, single, is_some,
  take_fragment, refused_by, ctx_conflict, width_conflict, held_bytes, charge, refused_shape,
  estimate, with_ctx, push_part, push_frame, key_of, incoming_of, retain_not, after_retain,
  drop_session, drop_flow, of_session, of_flow,
}
use my_quic.Udp.Reasm.Table.{make_room-Every, retain_not-Every}
use my_quic.Udp.Reasm.Deliver.{Event, arrives, sweeps, closes_session, closes_flow, step}
use my_quic.Udp.Reasm.Account.{footprint, Healthy, Accounted, lookup-Absent, Healthy-few}
use my_quic.Udp.Reasm.Account.Room.{make_room-Accounted, expire-Accounted}
use my_quic.Udp.Reasm.Account.Taking.{take_fragment-Accounted, live-Held, new-Held}

-- The reassembler after the events.
unfoldable pub final : Layout → List Event → R2Reassembler → R2Reassembler
unfolding step
final l [] r = r
final l (e ∷ es) r = final l es (step l e r).1

-- What the removal of the matching entries keeps and revokes.
retain_not_lem :
    (matches : FragKey → Partial → Bool) (m : Parts)
    → footprint m < 2 ^ 64
    → (footprint (retain_not matches m).0 + (retain_not matches m).1 ≡ footprint m)
      × (length (retain_not matches m).0 ≤ length m)
unfolding retain_not
retain_not_lem matches [] small = (omega arith, omega arith)
retain_not_lem matches ((k, p) ∷ m) small =
    let rest = retain_not_lem matches m (omega arith) in
    elim (Bool-cases (matches k p)) [
      | inl e ↦ rw e (ground (arith, rest.0, small), omega (arith, rest.1))
      | inr e ↦ rw e (omega (arith, rest.0), omega (arith, rest.1))
    ]

or_false : (a b : Bool) → (a || b) ≡ false → (a ≡ false) × (b ≡ false)
or_false true b e = absurd (cc)
or_false false b e = (refl, e)

within_budget : (held n : ℕ) → ltb 262144 (saturating_add held n) ≡ false → held ≤ 262144
within_budget held n e = ground (arith, e)

module _ (l : Layout) where
  retain-Accounted :
      (matches : FragKey → Partial → Bool) (r : R2Reassembler)
      → Accounted l 576 r
      → Accounted l 576 (after_retain (retain_not matches r.parts) r).1
  retain-Accounted matches r h =
      let kept =
        retain_not_lem matches r.parts (omega (arith, Healthy-few r.parts h.each, h.few)) in
      record {
        each = retain_not-Every (λ k p. Healthy p) matches r.parts h.each;
        same_held = omega (arith, kept.0, h.same_held);
        few = omega (arith, kept.1, h.few);
        slots = h.slots;
        few_slots = h.few_slots;
        budget = omega (arith, h.budget);
      }

  drop_flow-Accounted :
      (wire_id : ℕ) (r : R2Reassembler)
      → Accounted l 576 r
      → Accounted l 576 (drop_flow wire_id r).1
  unfolding drop_flow
  drop_flow-Accounted wire_id r h = elim (Bool-cases (wire_id == 0)) [
    | inl e ↦ rw e h
    | inr e ↦ rw e (retain-Accounted (of_flow wire_id) r h)
  ]

  module _ (m : IsModest l) (d : Bytes) (f : FragIn) (fine : refused_shape d f ≡ false) where
    inside : f.idx < 64
    unfolding refused_shape
    inside = ground (arith, fine)

    chunk_small : length f.chunk ≤ 8192
    unfolding refused_shape
    chunk_small = ground (arith, fine)

    not_refused :
        (r : R2Reassembler) (p : Partial) (incoming : Option FragCtx)
        → refused_by l r p incoming f ≡ false
        → (bit p.got f.idx ≡ false)
          × (p.bytes + length f.chunk ≤ 8192)
          × (r.held + r.order_bytes ≤ 262144)
    unfolding refused_by
    not_refused r p incoming ok =
        let cap_test = ltb 8192 (saturating_add p.bytes (length f.chunk)) in
        let room_test =
          ltb 262144 (saturating_add (held_bytes r) (charge l p f.idx (length f.chunk))) in
        let narrow = is_middle f.total f.idx && width_conflict p.unit (length f.chunk) in
        let later = narrow || (cap_test || room_test) in
        let twice = bit p.got f.idx || later in
        let known =
          (or_false (not (p.total == f.total)) (ctx_conflict p.ctx incoming || twice) ok).1 in
        let new_bit =
          or_false (bit p.got f.idx) later (or_false (ctx_conflict p.ctx incoming) twice known).1 in
        let (cap, room) =
          or_false cap_test room_test (or_false narrow (cap_test || room_test) new_bit.1).1 in
        (
          new_bit.0,
          ground (arith, cap),
          within_budget (held_bytes r) (charge l p f.idx (length f.chunk)) room,
        )

    new_spare :
        (incoming : Option FragCtx) (now_ms : ℕ)
        → (bit (Partial.new f.total incoming now_ms).got f.idx ≡ false)
          × ((Partial.new f.total incoming now_ms).bytes + length f.chunk ≤ 8192)
    unfolding Partial.new
    new_spare incoming now_ms = (bit-replicate 64 f.idx, omega (arith, chunk_small))

    push_part-Accounted :
        (k : FragKey) (incoming : Option FragCtx) (now_ms : ℕ) (r : R2Reassembler)
        → Accounted l 576 r
        → Accounted l 576 (push_part l k incoming f now_ms r).1
    unfolding push_part
    push_part-Accounted k incoming now_ms r h = elim (Option-cases (lookup k r.parts)) [
      | inl absent ↦
          let fuel = length r.parts + 1 in
          let room = make_room l fuel (estimate l f) r in
          let next = make_room-Accounted l m 576 fuel (estimate l f) r h in
          let still =
            make_room-Every (λ j p. key_eq j k ≡ false) l fuel (estimate l f) r
              (lookup-Absent k r.parts absent) in
          rw (absent, push_part)
            (elim (Bool-cases room.0) [
              | inl fits ↦
                  rw (fits, push_part)
                    (take_fragment-Accounted l m k f (Partial.new f.total incoming now_ms) now_ms
                      room.1
                      (new-Held l m k f room.1 next.0 incoming f.total now_ms still (next.1 fits).0)
                      next.0 inside (new_spare incoming now_ms).0 (new_spare incoming now_ms).1
                      (next.1 fits).1 true)
              | inr full ↦ rw (full, push_part) next.0
            ])
      | inr (p, found) ↦
          rw (found, push_part)
            (elim (Bool-cases (refused_by l r p incoming f)) [
              | inl no_thanks ↦ rw no_thanks h
              | inr ok ↦ rw ok (
                  take_fragment-Accounted l m k f (with_ctx incoming p) now_ms r
                    (live-Held l m k f r h incoming p found) h inside
                    (not_refused r p incoming ok).0 (not_refused r p incoming ok).1
                    (not_refused r p incoming ok).2 false)
            ])
    ]

  push_frame-Accounted :
      (m : IsModest l) (d : Bytes) (f : FragIn) (now_ms : ℕ) (r : R2Reassembler)
      → Accounted l 576 r
      → Accounted l 576 (push_frame l d f now_ms r).1
  unfolding push_frame
  push_frame-Accounted m d f now_ms r h = elim (Bool-cases (refused_shape d f)) [
    | inl bad ↦ rw bad h
    | inr fine ↦ rw fine (elim (Option-cases (key_of f)) [
      | inl no_key ↦ rw (no_key, push_frame) h
      | inr (k, e) ↦
          rw (e, push_frame)
            (elim (Option-cases (incoming_of f)) [
              | inl odd ↦ rw (odd, push_frame) h
              | inr (incoming, e') ↦
                  rw (e', push_frame)
                    (elim (Bool-cases (k.inline && not (is_some incoming))) [
                      | inl bare ↦ rw bare h
                      | inr ok ↦ rw ok (elim (Bool-cases (f.total == 1)) [
                        | inl one ↦ rw one h
                        | inr more ↦ rw more (push_part-Accounted m d f fine k incoming now_ms r h)
                      ])
                    ])
            ])
    ])
  ]

  step-Accounted :
      (m : IsModest l) (e : Event) (r : R2Reassembler)
      → Accounted l 576 r
      → Accounted l 576 (step l e r).1
  unfolding step drop_session
  step-Accounted m (arrives d f now_ms) r h = push_frame-Accounted m d f now_ms r h
  step-Accounted m (sweeps now_ms) r h = expire-Accounted l m now_ms r h
  step-Accounted m (closes_session session) r h = retain-Accounted (of_session session) r h
  step-Accounted m (closes_flow wire_id) r h = drop_flow-Accounted wire_id r h

  final_from :
      (m : IsModest l) (es : List Event) (r : R2Reassembler)
      → Accounted l 576 r
      → Accounted l 576 (final l es r)
  unfolding final
  final_from m [] r h = h
  final_from m (e ∷ es) r h = final_from m es (step l e r).1 (step-Accounted m e r h)

-- Let the types be small and the allocator give a vector at most twice what it must hold, and eight.
-- Then after any events, whatever frames arrive and whoever sends them, the reassembler's counters
-- are exact: `held` is the sum of what its partials retain and `order_bytes` the size of its slots. It
-- has at most 256 partials and 576 slots, and each partial has landed a chunk, has at most 8192 bytes
-- of them and retains at most 65536. What is counted together passes the budget of 256 KiB by no more
-- than one partial and one slot can make up, 65664 bytes.
pub final-Accounted :
    (l : Layout) (es : List Event) → IsModest l → Accounted l 576 (final l es Reasm.new)
final-Accounted l es m = final_from l m es Reasm.new (record {
  each = tt;
  same_held = refl;
  few = omega arith;
  slots = omega arith;
  few_slots = omega arith;
  budget = omega arith;
})
