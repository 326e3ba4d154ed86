-- ===== src/Udp/Reasm/Accept.antt =====
-- src/udp/r2_reasm.rs, `push_frame`: a fragment that is due is not refused.
use my_quic.Common.{
  ℕ, ◌+◌, ◌*◌, ◌^◌, ◌≤◌, ◌<◌, ◌≡◌, ◌⊎◌, refl, ap, ◌∙◌, sym, subst, Bool, true, false, ◌&&◌, not,
  Option, none, some, [], ◌∷◌, arith, ltb, ◌==◌, if◌then◌else◌, length, length-drop, Bool-cases,
  inl, inr, eq→==,
}
use native.Mathlib.Nat.{mul-le-mul, zero-add}
use my_quic.Common.Bytes.{Bytes}
use my_quic.Mqp.Addr.{TargetAddrRef}
use my_quic.Mqp.Flow.Binding.{target_eq_refl}
use my_quic.Udp.Frag.{saturating_add, saturating_mul}
use my_quic.Udp.Frag.Split.{piece, chunks_at}
use my_quic.Udp.Partial
use my_quic.Udp.Partial.{Layout, FragCtx, Partial, bit, set_bit, is_middle, pending_charge, pos_of}
use my_quic.Udp.Partial.Sent.{Sent, Agrees, stop_in, middle_width}
use my_quic.Udp.Partial.Bounded.{IsModest, Bounded}
use my_quic.Udp.Partial.Weight.{widths, weight, widths_le, weight-set_bit}
use my_quic.Udp.Reasm
use my_quic.Udp.Reasm.{
  FragKey, FragIn, R2Reassembler, bool_eq, key_eq, lookup, key_of, key_from, incoming_of, ctx_from,
  ctx_eq, ctx_conflict, width_conflict, is_some, charge, refused_by, refused_shape, estimate,
  held_bytes, make_room, has_room, with_ctx, take_fragment, push_part, push_frame,
}
use my_quic.Udp.Reasm.Taken.{IsSent, IsFrameOf, IsPart}

bool_eq_refl : (a : Bool) → bool_eq a a ≡ true
bool_eq_refl true = refl
bool_eq_refl false = refl

pub key_eq_refl : (k : FragKey) → key_eq k k ≡ true
unfolding key_eq
key_eq_refl k = ground (arith, bool_eq_refl k.inline)

ctx_eq_refl : (c : FragCtx) → ctx_eq c c ≡ true
ctx_eq_refl c = ground (arith, target_eq_refl c.addr, bool_eq_refl c.src)

-- Contexts of one payload do not conflict.
no_conflict :
    (old incoming c : Option FragCtx)
    → (old ≡ none) ⊎ (old ≡ c)
    → (incoming ≡ none) ⊎ (incoming ≡ c)
    → ctx_conflict old incoming ≡ false
no_conflict none incoming c h g = refl
no_conflict (some x) none c h g = refl
no_conflict (some x) (some y) c (inl h) g = absurd (cc)
no_conflict (some x) (some y) c (inr h) (inl g) = absurd (cc)
no_conflict (some x) (some y) c (inr h) (inr g) =
    let same : x ≡ y = cc in subst (λ z. not (ctx_eq x z) ≡ false) same (rw (ctx_eq_refl x) refl)

-- The inline form carries a context.
inline_ctx :
    (wire_id sess : Option ℕ) (addr : Option TargetAddrRef) (src : Bool) (frag_id : ℕ) (k : FragKey)
    (incoming : Option FragCtx)
    → key_from wire_id sess frag_id ≡ some k
    → ctx_from sess addr src ≡ some incoming
    → (k.inline && not (is_some incoming)) ≡ false
inline_ctx (some id) sess addr src frag_id k incoming e c = ground (arith, e)
inline_ctx none none addr src frag_id k incoming e c = absurd (cc)
inline_ctx none (some s) none src frag_id k incoming e c = absurd (cc)
inline_ctx none (some s) (some a) src frag_id k incoming e c = ground (arith, e, c)

width_conflict-Agrees :
    (w n : ℕ) (unit : Option ℕ) → Agrees w unit → n ≡ w → width_conflict unit n ≡ false
width_conflict-Agrees w n none a e = refl
width_conflict-Agrees w n (some x) a e = ground (arith, a, e)

module _ (s : Sent) (v : IsSent s) (several : 2 ≤ s.plan.total) (k : FragKey) (d : Bytes)
    (f : FragIn) (g : IsFrameOf k s d f) (short : length d < 2 ^ 64) where
  pub chunk_is : f.chunk ≡ piece s.plan s.payload f.idx
  chunk_is = cc (chunks_at s.payload s.plan v f.idx g.inside, g.its_chunk)

  pub chunk_bounds : (0 < length f.chunk) × (length f.chunk ≤ 8192)
  chunk_bounds =
      let b = stop_in s.payload s.plan s.limit v f.idx g.inside in
      omega (arith, ap length chunk_is, v.len_small)

  shape_fine : refused_shape d f ≡ false
  unfolding refused_shape
  shape_fine =
      let size = ap length g.tail in
      ground (
        arith,
        chunk_bounds,
        size,
        length-drop f.chunk_off d,
        g.same_total,
        g.inside,
        v.total_small,
        v.total_pos,
      )

  -- What a live partial of the payload must be for a fragment that is due.
  pub record IsReady (r : R2Reassembler) (p : Partial) : Type 0 where
    pub part : IsPart s p
    pub bounded : Bounded p
    pub weighed : p.bytes ≡ weight (widths s.payload s.plan s.limit v) 0 p.got
    pub modest_held : r.held + r.order_bytes ≤ 65536 + 128

  pub room_in_payload :
      (p : Partial)
      → IsPart s p
      → p.bytes ≡ weight (widths s.payload s.plan s.limit v) 0 p.got
      → bit p.got f.idx ≡ false
      → p.bytes + length f.chunk ≤ 8192
  room_in_payload p h w clear =
      let ws = widths s.payload s.plan s.limit v in
      let mask = h.tidy.fits.mask in
      let grown =
        weight-set_bit ws 0 p.got f.idx (omega (arith, mask, v.total_small, g.inside)) clear in
      let most = widths_le s.payload s.plan s.limit v 0 (set_bit p.got f.idx) in
      let zero_off : ws (0 + f.idx) ≡ ws f.idx = ap ws (zero-add f.idx) in
      omega (arith, grown, most, w, zero_off, ap length chunk_is, v.len_small)

  width_fine :
      (p : Partial)
      → IsPart s p
      → (is_middle f.total f.idx && width_conflict p.unit (length f.chunk)) ≡ false
  width_fine p h = elim (Bool-cases (is_middle f.total f.idx)) [
    | inr e ↦ rw e refl
    | inl e ↦
        let inner : (1 ≤ f.idx) × (f.idx + 1 < s.plan.total) =
          ground (arith, e, g.same_total, g.inside) in
        let width = middle_width s.payload s.plan s.limit v f.idx inner.0 inner.1 in
        let same : length f.chunk ≡ s.plan.rest_chunk = ap length chunk_is ∙ width in
        rw e
          (width_conflict-Agrees s.plan.rest_chunk (length f.chunk) p.unit h.tidy.fits.unit_ok same)
  ]

  module _ (l : Layout) (m : IsModest l) where
    pending_charge_small :
        (len cap n : ℕ) → cap ≤ 138 → n ≤ 8192 → pending_charge l len cap n ≤ 65536
    unfolding pending_charge
    pending_charge_small len cap n hc hn =
        let next = if cap == 0 then 4 else saturating_mul cap 2 in
        let few : next ≤ 276 = ground arith in
        let slots : next * l.pending_size ≤ 276 * 128 = mul-le-mul few m.pending_small in
        ground (arith, slots)

    charge_small : (p : Partial) → Bounded p → charge l p f.idx (length f.chunk) ≤ 65536
    unfolding charge
    charge_small p b = ground (
      arith,
      pending_charge_small (length p.pending) p.pending_cap (length f.chunk) b.slots_small
          chunk_bounds.1,
      chunk_bounds.1,
    )

    pub refused_by-IsReady :
        (r : R2Reassembler) (p : Partial) (incoming : Option FragCtx)
        → IsReady r p
        → bit p.got f.idx ≡ false
        → (incoming ≡ none) ⊎ (incoming ≡ s.ctx)
        → refused_by l r p incoming f ≡ false
    unfolding refused_by
    refused_by-IsReady r p incoming h clear either =
        let total : (p.total == f.total) ≡ true =
          eq→== p.total f.total (h.part.tidy.fits.same_total ∙ sym g.same_total) in
        let ctx = no_conflict p.ctx incoming s.ctx h.part.some_ctx either in
        let cap : ltb 8192 (saturating_add p.bytes (length f.chunk)) ≡ false =
          ground (arith, room_in_payload p h.part h.weighed clear) in
        let budget : ltb 262144 (saturating_add (held_bytes r) (charge l p f.idx (length f.chunk)))
            ≡ false =
          ground (arith, h.modest_held, charge_small p h.bounded) in
        rw (total, ctx, clear, width_fine p h.part, cap, budget) refl

    -- There is room for a new partial.
    pub room_at_first : make_room l 1 (estimate l f) Reasm.new ≡ (true, Reasm.new)
    unfolding make_room estimate
    room_at_first = ground (
      arith,
      pending_charge_small 0 0 (length f.chunk) (omega arith) chunk_bounds.1,
      m.partial_small,
      m.slot_small,
    )

    module _ (incoming : Option FragCtx) (e : incoming_of f ≡ some incoming) (now_ms : ℕ) where
      bare_fine : (k.inline && not (is_some incoming)) ≡ false
      unfolding key_of incoming_of
      bare_fine = inline_ctx f.wire_id f.sess f.addr f.src f.frag_id k incoming g.same_key e

      to_part : (r : R2Reassembler) → push_frame l d f now_ms r ≡ push_part l k incoming f now_ms r
      unfolding push_frame
      to_part r =
          let many : (f.total == 1) ≡ false = ground (arith, g.same_total, several) in
          rw shape_fine
            (rw (g.same_key, push_frame) (rw (e, push_frame) (rw (bare_fine, many) refl)))

      lookup_only : (p : Partial) → lookup k ((k, p) ∷ []) ≡ some p
      unfolding lookup
      lookup_only p = rw (key_eq_refl k) refl

      -- The first fragment opens a partial.
      pub accept_first :
          push_frame l d f now_ms Reasm.new
          ≡ take_fragment l k true f (Partial.new f.total incoming now_ms) now_ms Reasm.new
      unfolding push_part lookup
      accept_first =
          to_part Reasm.new
          ∙ ap
              (λ (x : Bool × R2Reassembler).
                if x.0
                then take_fragment l k true f (Partial.new f.total incoming now_ms) now_ms x.1
                else (none, x.1))
              room_at_first

      -- A later one that is due goes to it.
      pub accept_part :
          (r : R2Reassembler) (p : Partial)
          → r.parts ≡ (k, p) ∷ []
          → IsReady r p
          → bit p.got f.idx ≡ false
          → (incoming ≡ none) ⊎ (incoming ≡ s.ctx)
          → push_frame l d f now_ms r ≡ take_fragment l k false f (with_ctx incoming p) now_ms r
      unfolding push_part
      accept_part r p only h clear either =
          let found : lookup k r.parts ≡ some p = ap (lookup k) only ∙ lookup_only p in
          to_part r
          ∙ rw (found, push_part) (rw (refused_by-IsReady r p incoming h clear either) refl)
