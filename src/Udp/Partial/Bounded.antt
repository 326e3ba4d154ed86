-- ===== src/Udp/Partial/Bounded.antt =====
-- src/udp/r2_reasm.rs: how much a partial retains while the chunks of one payload land.
use my_quic.Common.{
  ℕ, zero, suc, ◌+◌, ◌*◌, ◌≤◌, ◌<◌, ◌≡◌, refl, ap, ◌∙◌, false, ◌&&◌, Option, none, some, [], ◌∷◌,
  arith, if◌then◌else◌, length, get_elem?, length-append, Bool-cases, Option-cases, inl, inr,
}
use Prim.Native.Nat.{min}
use native.Mathlib.Nat.{mul-le-mul}
use my_quic.Common.Bytes.{Bytes}
use my_quic.Common.Index.{get_elem?-lt}
use my_quic.Udp.Partial.{
  Layout, PendingChunk, Partial, bit, set_bit, buf_write, put_bytes, placement, drain_from,
  drain_pending, pending_cost, swap_remove, store_chunk, arrived, option_eq, land,
  recompute_retained, reserved,
}
use my_quic.Udp.Partial.Lists.{length-written, length-swap_remove, length-set_bit}
use my_quic.Udp.Partial.Weight.{
  count, count_le, one, weight-set_bit, pending_cost-swap_remove, pending_cost-append,
}

-- The types are small, and a vector grows to at most twice what it must hold, and eight.
pub record IsModest (l : Layout) : Type 0 where
  pub partial_small : l.partial_size ≤ 1024
  pub pending_small : l.pending_size ≤ 128
  pub slot_small : l.order_slot_bytes ≤ 128
  pub bytes_double : (cap needed : ℕ) → l.grow_bytes cap needed ≤ 2 * needed + 8
  pub slots_double : (cap needed : ℕ) → l.grow_slots cap needed ≤ 2 * needed + 8

pub record Bounded (p : Partial) : Type 0 where
  pub buf_small : length p.buf ≤ 8192
  pub cap_small : p.buf_cap ≤ 32776
  pub slots_small : p.pending_cap ≤ 138
  pub cost_small : pending_cost p.pending ≤ p.bytes + 48 * count p.got
  pub few : length p.pending ≤ count p.got

-- Only the buffer and the queue differ.
pub record Moved (p q : Partial) : Type 0 where
  pub bounded : Bounded q
  pub same_bytes : q.bytes ≡ p.bytes
  pub same_got : q.got ≡ p.got
  pub same_ms : q.first_ms ≡ p.first_ms

length-buf_write :
    (buf : Bytes) (pos : ℕ) (chunk : Bytes)
    → length buf ≤ 8192
    → length (buf_write buf pos chunk).1 ≤ 8192
unfolding buf_write
length-buf_write buf pos chunk h = ground (arith, length-written buf pos chunk)

module _ (l : Layout) (m : IsModest l) where
  put_bytes-Moved :
      (pos : ℕ) (chunk : Bytes) (p : Partial) → Bounded p → Moved p (put_bytes l pos chunk p)
  put_bytes-Moved pos chunk p b =
      let small = length-buf_write p.buf pos chunk b.buf_small in
      let grown = m.bytes_double p.buf_cap (length (buf_write p.buf pos chunk).1) in
      record {
        bounded = record {
          buf_small = small;
          cap_small = ground (arith, grown, small, b.cap_small);
          slots_small = b.slots_small;
          cost_small = b.cost_small;
          few = b.few;
        };
        same_bytes = refl;
        same_got = refl;
        same_ms = refl;
      }

  swap_remove-Bounded :
      (k : ℕ) (p : Partial)
      → k < length p.pending
      → Bounded p
      → Bounded (record p { pending = swap_remove k p.pending })
  swap_remove-Bounded k p h b = record {
    buf_small = b.buf_small;
    cap_small = b.cap_small;
    slots_small = b.slots_small;
    cost_small = omega (arith, b.cost_small, pending_cost-swap_remove k p.pending);
    few = omega (arith, b.few, length-swap_remove k p.pending h);
  }

  drain_from-Moved : (fuel i : ℕ) (p : Partial) → Bounded p → Moved p (drain_from l fuel i p)
  unfolding drain_from
  drain_from-Moved zero i p b = record {
    bounded = b;
    same_bytes = refl;
    same_got = refl;
    same_ms = refl;
  }
  drain_from-Moved (suc fuel) i p b = elim (Option-cases (get_elem? p.pending i)) [
    | inl e ↦
        rw (e, drain_from)
          (record { bounded = b; same_bytes = refl; same_got = refl; same_ms = refl })
    | inr (c, e) ↦ elim (Option-cases (placement p c)) [
      | inl waiting ↦
          rw (e, drain_from) (rw (waiting, drain_from) (drain_from-Moved fuel (i + 1) p b))
      | inr (pos, there) ↦
          let p1 : Partial = record p { pending = swap_remove i p.pending } in
          let b1 = swap_remove-Bounded i p (get_elem?-lt i p.pending e) b in
          let put = put_bytes-Moved pos c.bytes p1 b1 in
          let rest = drain_from-Moved fuel i (put_bytes l pos c.bytes p1) put.bounded in
          rw (e, drain_from)
            (rw (there, drain_from)
              (record {
                bounded = rest.bounded;
                same_bytes = rest.same_bytes;
                same_got = rest.same_got;
                same_ms = rest.same_ms;
              }))
    ]
  ]

  -- The footprint of a bounded partial is small against the budget.
  retained_small :
      (q : Partial)
      → Bounded q
      → q.bytes ≤ 8192
      → length q.got ≤ 64
      → (recompute_retained l q).retained ≤ 65536
  unfolding recompute_retained
  retained_small q b small mask =
      let counted = count_le 0 q.got in
      let slots : q.pending_cap * l.pending_size ≤ 138 * 128 =
        mul-le-mul b.slots_small m.pending_small in
      omega (arith, b.cap_small, b.cost_small, m.partial_small, counted)

  module _ (p : Partial) (b : Bounded p) (idx : ℕ) (chunk : Bytes) (inside : idx < length p.got)
      (fresh : bit p.got idx ≡ false) where
    abbrev after : Partial
    after = arrived idx chunk p

    count_after : count after.got ≡ count p.got + 1
    unfolding arrived
    count_after = weight-set_bit one 0 p.got idx inside fresh

    after-Bounded : Bounded after
    unfolding arrived
    after-Bounded = record {
      buf_small = b.buf_small;
      cap_small = b.cap_small;
      slots_small = b.slots_small;
      cost_small = omega (arith, b.cost_small, count_after);
      few = omega (arith, b.few, count_after);
    }

    queued-Bounded : length p.got ≤ 64 → Bounded (store_chunk l idx chunk none after)
    unfolding arrived
    queued-Bounded mask =
        let c : PendingChunk = record { idx = idx; bytes = chunk } in
        let longer = length-append p.pending (c ∷ []) in
        let grown = m.slots_double p.pending_cap (length p.pending + 1) in
        let counted = count_le 0 p.got in
        record {
          buf_small = b.buf_small;
          cap_small = b.cap_small;
          slots_small = ground (arith, grown, b.few, b.slots_small, counted);
          cost_small = omega (arith, b.cost_small, pending_cost-append p.pending c, count_after);
          few = omega (arith, b.few, longer, count_after);
        }

    reserved-Bounded : Bounded (reserved l (length chunk) after)
    unfolding arrived
    reserved-Bounded =
        let most = min (p.total * length chunk) 8192 in
        let grown = m.bytes_double p.buf_cap (length p.buf + most) in
        let cap : most ≤ 8192 = ground arith in
        record {
          buf_small = b.buf_small;
          cap_small = ground (arith, grown, cap, b.buf_small, b.cap_small);
          slots_small = b.slots_small;
          cost_small = after-Bounded.cost_small;
          few = after-Bounded.few;
        }

    -- Storing a chunk.
    stored-Moved :
        (pos : Option ℕ) → length p.got ≤ 64 → Moved after (store_chunk l idx chunk pos after)
    unfolding arrived
    stored-Moved none mask = record {
      bounded = queued-Bounded mask;
      same_bytes = refl;
      same_got = refl;
      same_ms = refl;
    }
    stored-Moved (some pos) mask =
        let put = put_bytes-Moved pos chunk (reserved l (length chunk) after) reserved-Bounded in
        record {
          bounded = put.bounded;
          same_bytes = put.same_bytes;
          same_got = put.same_got;
          same_ms = put.same_ms;
        }

    -- What a landed chunk leaves: bounded, with its length counted, and a footprint that is small.
    pub record Grown (q : Partial) : Type 0 where
      pub bounded : Bounded q
      pub more_bytes : q.bytes ≡ p.bytes + length chunk
      pub more_got : q.got ≡ set_bit p.got idx
      pub still_ms : q.first_ms ≡ p.first_ms
      pub small : p.bytes + length chunk ≤ 8192 → length p.got ≤ 64 → q.retained ≤ 65536

    recomputed-Grown : (q : Partial) → Moved after q → Grown (recompute_retained l q)
    unfolding recompute_retained arrived
    recomputed-Grown q h = record {
      bounded = record {
        buf_small = h.bounded.buf_small;
        cap_small = h.bounded.cap_small;
        slots_small = h.bounded.slots_small;
        cost_small = h.bounded.cost_small;
        few = h.bounded.few;
      };
      more_bytes = h.same_bytes;
      more_got = h.same_got;
      still_ms = h.same_ms;
      small = λ room mask.
          retained_small q h.bounded (omega (arith, h.same_bytes, room))
            (omega (arith, ap length h.same_got, length-set_bit p.got idx, mask));
    }

    pub land-Grown : (pos : Option ℕ) → length p.got ≤ 64 → Grown (land l idx chunk pos p)
    unfolding land drain_pending
    land-Grown pos mask =
        let stored = store_chunk l idx chunk pos after in
        let h = stored-Moved pos mask in
        let rest = drain_from-Moved (length stored.pending) 0 stored h.bounded in
        let same = option_eq stored.first_len p.first_len && option_eq stored.unit p.unit in
        let drained : Moved after (drain_from l (length stored.pending) 0 stored) = record {
          bounded = rest.bounded;
          same_bytes = rest.same_bytes ∙ h.same_bytes;
          same_got = rest.same_got ∙ h.same_got;
          same_ms = rest.same_ms ∙ h.same_ms;
        } in
        recomputed-Grown (if same then stored else drain_pending l stored)
          (elim (Bool-cases same) [ inl e ↦ rw e h | inr e ↦ rw e drained ])
