-- ===== src/Udp/Reasm/Account/Room.antt =====
-- src/udp/r2_reasm.rs, `evict_oldest`, `make_room`, `prune_orders` and `expire`: the counters stay
-- exact.
use my_quic.Common.{
  ℕ, zero, suc, ◌*◌, ◌≤◌, ◌<◌, ◌≡◌, refl, ap, ◌∙◌, sym, true, some, List, [], ◌∷◌, arith, leb,
  length, Bool-cases, Option-cases, inl, inr,
}
use native.Mathlib.Nat.{mul-le-mul, mul-le-mul_right}
use my_quic.Udp.Frag.{saturating_add, saturating_mul}
use my_quic.Udp.Partial.{Layout, Partial}
use my_quic.Udp.Partial.Bounded.{IsModest}
use my_quic.Udp.Reasm.{
  FragKey, Parts, R2Reassembler, lookup, live_at, evict_any, evict_from, evict_oldest, make_room,
  has_room, held_bytes, live_slots, insert_slot, slot_less, prune_orders, expire_from, expire,
  slot_expired,
}
use my_quic.Udp.Reasm.Accept.{key_eq_refl}
use my_quic.Udp.Reasm.Account.{Accounted, live_at-lookup, release-Accounted, pop-Accounted}

lookup_head : (k : FragKey) (p : Partial) (m : Parts) → lookup k ((k, p) ∷ m) ≡ some p
unfolding lookup
lookup_head k p m = rw (key_eq_refl k) refl

length-insert_slot :
    (x : FragKey × ℕ) (xs : List (FragKey × ℕ)) → length (insert_slot x xs) ≡ suc (length xs)
unfolding insert_slot
length-insert_slot x [] = refl
length-insert_slot x (y ∷ ys) = elim (Bool-cases (slot_less y x)) [
  | inl e ↦ rw e (ap suc (length-insert_slot x ys))
  | inr e ↦ rw e refl
]

length-live_slots : (m : Parts) → length (live_slots m) ≡ length m
unfolding live_slots
length-live_slots [] = refl
length-live_slots ((k, p) ∷ m) =
    length-insert_slot (k, p.first_ms) (live_slots m) ∙ ap suc (length-live_slots m)

module _ (l : Layout) (modest : IsModest l) where
  -- The slots are dropped when none is left.
  cleared :
      (most : ℕ) (r : R2Reassembler)
      → [] ≡ r.order
      → Accounted l most r
      → Accounted l most (record r { order = [] })
  cleared most r e h =
      let none_left : length r.order ≡ 0 = sym (ap length e) in
      record {
        each = h.each;
        same_held = h.same_held;
        few = h.few;
        slots = h.slots ∙ ap (λ n. n * l.order_slot_bytes) none_left;
        few_slots = omega arith;
        budget = h.budget;
      }

  evict_any-Accounted :
      (most : ℕ) (m : Parts) (r : R2Reassembler)
      → m ≡ r.parts
      → [] ≡ r.order
      → Accounted l most r
      → Accounted l most (evict_any m r).1
  unfolding evict_any
  evict_any-Accounted most [] r same e h = cleared most r e h
  evict_any-Accounted most ((k, p) ∷ m) r same e h =
      release-Accounted l most k p (record r { order = [] })
        (ap (lookup k) (sym same) ∙ lookup_head k p m) (cleared most r e h)

  evict_from-Accounted :
      (most : ℕ) (order : List (FragKey × ℕ)) (r : R2Reassembler)
      → order ≡ r.order
      → Accounted l most r
      → Accounted l most (evict_from l order r).1
  unfolding evict_from
  evict_from-Accounted most [] r e h = evict_any-Accounted most r.parts r refl e h
  evict_from-Accounted most ((k, t) ∷ order) r e h =
      let next = pop-Accounted l most (k, t) order r e h in
      elim (Option-cases (live_at k t r.parts)) [
        | inl gone ↦ rw (gone, evict_from) (evict_from-Accounted most order _ refl next)
        | inr (p, live) ↦
            rw (live, evict_from)
              (release-Accounted l most k p _ (live_at-lookup k t r.parts live) next)
      ]

  -- Evictions keep the counters, and room is room for one more.
  pub make_room-Accounted :
      (most fuel est : ℕ) (r : R2Reassembler)
      → Accounted l most r
      → Accounted l most (make_room l fuel est r).1
        × ((make_room l fuel est r).0 ≡ true
            → (length (make_room l fuel est r).1.parts < 256)
              × (held_bytes (make_room l fuel est r).1 ≤ 262144))
  unfolding make_room
  make_room-Accounted most zero est r h = (h, λ e. absurd (cc))
  make_room-Accounted most (suc fuel) est r h = elim (Bool-cases (has_room est r)) [
    | inl e ↦ rw e (h, λ q. ground (arith, e))
    | inr e ↦
        let next = evict_from-Accounted most r.order r refl h in
        rw e (elim (Bool-cases (evict_oldest l r).0) [
          | inl e' ↦
              rw (e', make_room) (make_room-Accounted most fuel est (evict_oldest l r).1 next)
          | inr e' ↦ rw (e', make_room) (next, λ q. absurd (cc))
        ])
  ]

  -- The order is cut to its limit.
  pub prune_orders-Accounted :
      (most : ℕ) (r : R2Reassembler)
      → most ≤ 577
      → Accounted l most r
      → Accounted l 576 (prune_orders l r)
  unfolding prune_orders
  prune_orders-Accounted most r small h =
      let few = h.few in
      let same = length-live_slots r.parts in
      let cost : length (live_slots r.parts) * l.order_slot_bytes ≤ 256 * 128 =
        mul-le-mul {n₂ = 256} (omega (arith, few, same)) modest.slot_small in
      elim (Bool-cases
        (leb (length r.order) (saturating_add (saturating_mul (length r.parts) 2) 64))) [
          | inl e ↦ rw e (record {
            each = h.each;
            same_held = h.same_held;
            few = h.few;
            slots = h.slots;
            few_slots = ground (arith, e, few);
            budget = h.budget;
          })
          | inr e ↦
              let fewer : length (live_slots r.parts) * l.order_slot_bytes
                  ≤ length r.order * l.order_slot_bytes =
                mul-le-mul_right l.order_slot_bytes (ground (arith, e, same, few)) in
              rw e (record {
                each = h.each;
                same_held = h.same_held;
                few = h.few;
                slots = ground (arith, cost);
                few_slots = omega (arith, same, few);
                budget = ground (arith, h.budget, h.slots, fewer);
              })
        ]

  expire_from-Accounted :
      (most now_ms : ℕ) (order : List (FragKey × ℕ)) (r : R2Reassembler)
      → order ≡ r.order
      → Accounted l most r
      → Accounted l most (expire_from l now_ms order r)
  unfolding expire_from
  expire_from-Accounted most now_ms [] r e h = h
  expire_from-Accounted most now_ms ((k, t) ∷ order) r e h =
      let next = pop-Accounted l most (k, t) order r e h in
      elim (Option-cases (live_at k t r.parts)) [
        | inl gone ↦
            rw (gone, expire_from) (rw gone (expire_from-Accounted most now_ms order _ refl next))
        | inr (p, live) ↦
            rw (live, expire_from)
              (elim (Bool-cases (slot_expired now_ms t (some p))) [
                | inr young ↦ rw (young, expire_from) h
                | inl old ↦
                    rw (old, expire_from)
                      (rw live (
                        expire_from-Accounted most now_ms order _ refl
                          (release-Accounted l most k p _ (live_at-lookup k t r.parts live) next)))
              ])
      ]

  pub expire-Accounted :
      (now_ms : ℕ) (r : R2Reassembler) → Accounted l 576 r → Accounted l 576 (expire l now_ms r)
  unfolding expire
  expire-Accounted now_ms r h =
      prune_orders-Accounted 576 (expire_from l now_ms r.order r) (omega arith)
        (expire_from-Accounted 576 now_ms r.order r refl h)
