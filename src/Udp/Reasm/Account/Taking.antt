-- ===== src/Udp/Reasm/Account/Taking.antt =====
-- src/udp/r2_reasm.rs, `push_frame`: the counters after a fragment, whoever sent it.
use my_quic.Common.{
  ℕ, zero, suc, ◌+◌, ◌-◌, ◌*◌, ◌≤◌, ◌<◌, ◌≡◌, refl, ap, ◌∙◌, sym, subst, Bool, true, false, Option,
  some, List, [], ◌∷◌, arith, length, length-append, if◌then◌else◌, Bool-cases, inl, inr,
}
use native.Mathlib.Nat.{mul-le-mul, suc-mul}
use my_quic.Udp.Frag.{saturating_add}
use my_quic.Udp.Partial
use my_quic.Udp.Partial.{Layout, FragCtx, Partial, bit, set_bit, land, is_complete}
use my_quic.Udp.Partial.Lists.{length-set_bit, bit-set_bit}
use my_quic.Udp.Partial.Bounded.{IsModest, Bounded, Grown, land-Grown}
use my_quic.Udp.Reasm.{
  FragKey, FragIn, R2Reassembler, lookup, erase, put, none_landed, position, past_cap,
  take_fragment, deliver, queue_slot, prune_orders, with_ctx,
}
use my_quic.Udp.Reasm.Table.{Every, lookup-Every, put-Every, parts-prune_orders}
use my_quic.Udp.Reasm.Account.{
  footprint, Healthy, Accounted, Absent, erase-Absent, put-Absent, put_present, lookup-put,
  erase_present, release-Accounted, Healthy-few,
}
use my_quic.Udp.Reasm.Account.Room.{prune_orders-Accounted}

bit-none_landed : (bs : List Bool) (i : ℕ) → bit bs i ≡ true → none_landed bs ≡ false
bit-none_landed [] i h = absurd (cc)
bit-none_landed (b ∷ bs) zero h = ground (arith, h)
bit-none_landed (b ∷ bs) (suc i) h = ground (arith, bit-none_landed bs i h)

suc_add_one : (n : ℕ) → n + 1 ≡ suc n
suc_add_one n = omega arith

-- What `take_fragment` gets: the partial's own part of what the table retains, and where it goes.
pub record Held (k : FragKey) (p : Partial) (r : R2Reassembler) : Type 0 where
  pub bounded : Bounded p
  pub mask : length p.got ≡ 64
  pub small : p.retained ≤ 65536
  pub puts :
      (q : Partial) → footprint (put k q r.parts) + p.retained ≡ footprint r.parts + q.retained
  pub room : (q : Partial) → length (put k q r.parts) ≤ 256
  pub own : p.retained ≤ footprint r.parts
  pub undone :
      Every (λ k p. Healthy p) (if none_landed p.got then erase k r.parts else put k p r.parts)
  pub undone_weight :
      footprint (if none_landed p.got then erase k r.parts else put k p r.parts) ≡ footprint r.parts
  pub undone_size : length (if none_landed p.got then erase k r.parts else put k p r.parts) ≤ 256

module _ (l : Layout) (m : IsModest l) (k : FragKey) (f : FragIn) (p : Partial) (now_ms : ℕ)
    (r : R2Reassembler) (held : Held k p r) (h : Accounted l 576 r) (inside : f.idx < 64)
    (clear : bit p.got f.idx ≡ false) (fits : p.bytes + length f.chunk ≤ 8192)
    (spare : r.held + r.order_bytes ≤ 262144) where
  abbrev landed : Partial
  landed = land l f.idx f.chunk (position p f) p

  landed-Healthy : Healthy landed
  landed-Healthy =
      let in_mask : f.idx < length p.got = omega (arith, held.mask, inside) in
      let g : Grown l m p held.bounded f.idx f.chunk in_mask clear landed =
        land-Grown l m p held.bounded f.idx f.chunk in_mask clear (position p f)
          (omega (arith, held.mask)) in
      let set : bit landed.got f.idx ≡ true =
        ap (λ x. bit x f.idx) g.more_got ∙ ground (arith, bit-set_bit p.got f.idx f.idx in_mask) in
      record {
        bounded = g.bounded;
        mask = ap length g.more_got ∙ length-set_bit p.got f.idx ∙ held.mask;
        some_landed = bit-none_landed landed.got f.idx set;
        payload_small = omega (arith, g.more_bytes, fits);
        small = g.small fits (omega (arith, held.mask));
      }

  abbrev kept : R2Reassembler
  kept = record r {
    parts = put k landed r.parts;
    held = saturating_add (r.held - p.retained) landed.retained;
  }

  kept_budget :
      (kept.held + kept.order_bytes ≤ 262144 + 65536 + 128)
      × (kept.held + kept.order_bytes ≤ 262144 + 65536)
  kept_budget = ground (arith, spare, landed-Healthy.small)

  kept-Accounted : Accounted l 576 kept
  kept-Accounted =
      let q = landed-Healthy in
      let total = Healthy-few r.parts h.each in
      record {
        each = put-Every (λ k p. Healthy p) k landed r.parts q h.each;
        same_held = ground (arith, held.puts landed, h.same_held, held.own, total, h.few, q.small);
        few = held.room landed;
        slots = h.slots;
        few_slots = h.few_slots;
        budget = kept_budget.0;
      }

  queued-Accounted : (is_new : Bool) → Accounted l 577 (queue_slot l is_new k now_ms kept)
  queued-Accounted false =
      let a = kept-Accounted in
      record {
        each = a.each;
        same_held = a.same_held;
        few = a.few;
        slots = a.slots;
        few_slots = omega (arith, a.few_slots);
        budget = a.budget;
      }
  queued-Accounted true =
      let a = kept-Accounted in
      let longer = length-append r.order ((k, now_ms) ∷ []) in
      let cost = ap (λ n. n * l.order_slot_bytes) longer in
      let bound : length r.order * l.order_slot_bytes ≤ 576 * 128 =
        mul-le-mul {n₂ = 576} h.few_slots m.slot_small in
      record {
        each = a.each;
        same_held = a.same_held;
        few = a.few;
        slots = ground (
          arith,
          a.slots,
          bound,
          cost,
          m.slot_small,
          suc-mul (length r.order) l.order_slot_bytes,
          ap (λ n. n * l.order_slot_bytes) (suc_add_one (length r.order)),
        );
        few_slots = omega (arith, longer, a.few_slots);
        budget = ground (arith, kept_budget.1, m.slot_small);
      }

  queued_parts : (is_new : Bool) → (queue_slot l is_new k now_ms kept).parts ≡ put k landed r.parts
  queued_parts false = refl
  queued_parts true = refl

  deliver-Accounted :
      (r' : R2Reassembler)
      → lookup k r'.parts ≡ some landed
      → Accounted l 576 r'
      → Accounted l 576 (deliver k f landed r').1
  deliver-Accounted r' e h' = elim (Bool-cases (is_complete landed)) [
    | inl done ↦ rw done (release-Accounted l 576 k landed r' e h')
    | inr more ↦ rw more h'
  ]

  pub take_fragment-Accounted :
      (is_new : Bool) → Accounted l 576 (take_fragment l k is_new f p now_ms r).1
  unfolding take_fragment
  take_fragment-Accounted is_new = elim (Bool-cases (past_cap (position p f) (length f.chunk))) [
    | inl e ↦ rw e (record {
      each = held.undone;
      same_held = h.same_held ∙ sym held.undone_weight;
      few = held.undone_size;
      slots = h.slots;
      few_slots = h.few_slots;
      budget = h.budget;
    })
    | inr e ↦
        let queued = queue_slot l is_new k now_ms kept in
        let found =
          ap (lookup k) (parts-prune_orders l queued ∙ queued_parts is_new)
          ∙ lookup-put k landed r.parts in
        rw e (
          deliver-Accounted (prune_orders l queued) found
            (prune_orders-Accounted l m 577 queued (omega arith) (queued-Accounted is_new)))
  ]

module _ (l : Layout) (m : IsModest l) (k : FragKey) (f : FragIn) (r : R2Reassembler)
    (h : Accounted l 576 r) where
  -- A live partial with the context of a frame.
  pub live-Held :
      (incoming : Option FragCtx) (p : Partial)
      → lookup k r.parts ≡ some p
      → Held k (with_ctx incoming p) r
  live-Held incoming p e =
      let q = lookup-Every (λ k p. Healthy p) k r.parts h.each e in
      let p' = with_ctx incoming p in
      let same = put_present k p p' r.parts e in
      let healthy : Healthy p' = record {
        bounded = record {
          buf_small = q.bounded.buf_small;
          cap_small = q.bounded.cap_small;
          slots_small = q.bounded.slots_small;
          cost_small = q.bounded.cost_small;
          few = q.bounded.few;
        };
        mask = q.mask;
        some_landed = q.some_landed;
        payload_small = q.payload_small;
        small = q.small;
      } in
      record {
        bounded = healthy.bounded;
        mask = q.mask;
        small = q.small;
        puts = λ x. (put_present k p x r.parts e).0;
        room = λ x. omega (arith, (put_present k p x r.parts e).1, h.few);
        own = omega (arith, erase_present k p r.parts e);
        undone = rw q.some_landed (put-Every (λ k p. Healthy p) k p' r.parts healthy h.each);
        undone_weight = rw q.some_landed (omega (arith, same.0));
        undone_size = rw q.some_landed (omega (arith, same.1, h.few));
      }

  -- A new partial, where there is room for it.
  pub new-Held :
      (incoming : Option FragCtx) (total now_ms : ℕ)
      → Absent k r.parts
      → length r.parts < 256
      → Held k (Partial.new total incoming now_ms) r
  unfolding Partial.new
  new-Held incoming total now_ms absent spare =
      let same = erase-Absent k r.parts absent in
      record {
        bounded = record {
          buf_small = omega arith;
          cap_small = omega arith;
          slots_small = omega arith;
          cost_small = omega arith;
          few = omega arith;
        };
        mask = refl;
        small = omega arith;
        puts = λ x. omega (arith, (put-Absent k x r.parts absent).0);
        room = λ x. omega (arith, (put-Absent k x r.parts absent).1, spare);
        own = omega arith;
        undone = subst (Every (λ k p. Healthy p)) (sym same) h.each;
        undone_weight = ap footprint same;
        undone_size = omega (arith, ap length same, spare);
      }
