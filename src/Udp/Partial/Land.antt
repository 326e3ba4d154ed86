-- ===== src/Udp/Partial/Land.antt =====
-- src/udp/r2_reasm.rs: a landed chunk, and what a complete partial holds.
use my_quic.Common.{
  ℕ, zero, suc, ◌+◌, ◌-◌, ◌≤◌, ◌<◌, ◌≡◌, refl, ap, ◌∙◌, sym, true, ◌&&◌, Option, none, some, List,
  [], ◌∷◌, arith, ltb, if◌then◌else◌, length, get_elem?, All, All-append, Bool-cases, Option-cases,
  inl, inr, subst, ltb→lt,
}
use my_quic.Common.Bytes.{Bytes}
use my_quic.Udp.Frag.{FragPlan}
use my_quic.Udp.Frag.Split.{start, start_at, Planned, piece}
use my_quic.Udp.Partial.{
  Layout, PendingChunk, Partial, bit, set_bit, pos_of, store_chunk, arrived, option_eq,
  drain_pending, land, recompute_retained, is_complete,
}
use my_quic.Udp.Partial.Lists.{waits, ones-bit}
use my_quic.Udp.Partial.Sent.{Holds, stop, stop_next, stop_last, pos_of_known}
use my_quic.Udp.Partial.Fits.{IsPiece, HoldsPiece, Fits}
use my_quic.Udp.Partial.Arrive.{stored-Fits}
use my_quic.Udp.Partial.Drain.{Stuck, drain_from-Drained}

-- Between fragments only chunks wait whose place is not known.
pub record Tidy (payload : Bytes) (plan : FragPlan) (p : Partial) : Type 0 where
  pub fits : Fits payload plan p
  pub stuck : All (Stuck p.first_len p.unit) p.pending

same_prefix :
    (xs ys : Bytes)
    → length xs ≤ length ys
    → ((j : ℕ) → j < length ys → get_elem? xs j ≡ get_elem? ys j)
    → xs ≡ ys
same_prefix [] [] h same = refl
same_prefix [] (y ∷ ys) h same = absurd (cc (same 0 (omega arith)))
same_prefix (x ∷ xs) [] h same = absurd (omega arith)
same_prefix (x ∷ xs) (y ∷ ys) h same =
    let head = same 0 (omega arith) in
    let tail = same_prefix xs ys (omega arith) (λ j inside. same (suc j) (omega arith)) in cc

option_eq→eq : (a b : Option ℕ) → option_eq a b ≡ true → a ≡ b
option_eq→eq none none h = refl
option_eq→eq none (some y) h = absurd (cc)
option_eq→eq (some x) none h = absurd (cc)
option_eq→eq (some x) (some y) h = ground arith

retained-Tidy :
    (payload : Bytes) (plan : FragPlan) (l : Layout) (p : Partial)
    → Tidy payload plan p
    → Tidy payload plan (recompute_retained l p)
unfolding recompute_retained
retained-Tidy payload plan l p t = record {
  fits = record {
    same_total = t.fits.same_total;
    mask = t.fits.mask;
    first_ok = t.fits.first_ok;
    first_known = t.fits.first_known;
    unit_ok = t.fits.unit_ok;
    unit_known = t.fits.unit_known;
    within = t.fits.within;
    landed = t.fits.landed;
    genuine = t.fits.genuine;
  };
  stuck = t.stuck;
}

module _ (payload : Bytes) (plan : FragPlan) (limit : ℕ) (v : Planned limit (length payload) plan)
    (l : Layout) (several : 2 ≤ plan.total) where
  module _ (p : Partial) (t : Tidy payload plan p) (idx : ℕ) (inside : idx < plan.total) where
    abbrev chunk : Bytes
    chunk = piece plan payload idx

    abbrev after : Partial
    after = arrived idx chunk p

    abbrev pos : Option ℕ
    pos = pos_of after.first_len after.unit idx

    abbrev stored : Partial
    stored = store_chunk l idx chunk pos after

    -- Storing a chunk changes the buffer or the queue only.
    record Stored (q : Partial) : Type 0 where
      same_first : q.first_len ≡ after.first_len
      same_unit : q.unit ≡ after.unit
      same_got : q.got ≡ set_bit p.got idx
      same_ctx : q.ctx ≡ p.ctx

    stored-Stored : Stored stored
    unfolding arrived
    stored-Stored = elim pos as (λ o. Stored (store_chunk l idx chunk o after)) [
      | none ↦ record { same_first = refl; same_unit = refl; same_got = refl; same_ctx = refl }
      | some x ↦ record { same_first = refl; same_unit = refl; same_got = refl; same_ctx = refl }
    ]

    -- Where nothing new is determined, the queue stays stuck.
    stored-Stuck :
        after.first_len ≡ p.first_len
        → after.unit ≡ p.unit
        → All (Stuck p.first_len p.unit) stored.pending
    unfolding arrived
    stored-Stuck a b = elim (Option-cases pos) [
      | inl e ↦
          let waiting : pos_of p.first_len p.unit idx ≡ none = cc (a, b, e) in
          rw e (All-append (Stuck p.first_len p.unit) p.pending _ t.stuck (waiting, tt))
      | inr (x, e) ↦ rw e t.stuck
    ]

    -- What a landed chunk leaves.
    pub record Landed (q : Partial) : Type 0 where
      pub tidy : Tidy payload plan q
      pub same_got : q.got ≡ set_bit p.got idx
      pub same_ctx : q.ctx ≡ p.ctx

    unchanged :
        option_eq stored.first_len p.first_len && option_eq stored.unit p.unit ≡ true
        → Landed stored
    unchanged same =
        let s = stored-Stored in
        let a = option_eq→eq stored.first_len p.first_len (ground (arith, same)) in
        let b = option_eq→eq stored.unit p.unit (ground (arith, same)) in
        let queue = stored-Stuck (sym s.same_first ∙ a) (sym s.same_unit ∙ b) in
        record {
          tidy = record {
            fits = stored-Fits payload plan limit v l several p t.fits idx inside;
            stuck =
                subst (λ o. All (Stuck o stored.unit) stored.pending) (sym a)
                  (subst (λ o. All (Stuck p.first_len o) stored.pending) (sym b) queue);
          };
          same_got = s.same_got;
          same_ctx = s.same_ctx;
        }

    drained : Landed (drain_pending l stored)
    unfolding drain_pending
    drained =
        let s = stored-Stored in
        let d =
          drain_from-Drained payload plan limit v l (length stored.pending) 0 stored
            (stored-Fits payload plan limit v l several p t.fits idx inside) tt (omega arith) in
        let q = drain_pending l stored in
        record {
          tidy = record {
            fits = d.fits;
            stuck =
                subst (λ o. All (Stuck o q.unit) q.pending) (sym d.same_first)
                  (subst (λ o. All (Stuck stored.first_len o) q.pending) (sym d.same_unit) d.stuck);
          };
          same_got = d.same_got ∙ s.same_got;
          same_ctx = d.same_ctx ∙ s.same_ctx;
        }

    recomputed : (q : Partial) → Landed q → Landed (recompute_retained l q)
    unfolding recompute_retained
    recomputed q r = record {
      tidy = retained-Tidy payload plan l q r.tidy;
      same_got = r.same_got;
      same_ctx = r.same_ctx;
    }

    pub land-Landed : Landed (land l idx chunk pos p)
    unfolding land
    land-Landed =
        let same = option_eq stored.first_len p.first_len && option_eq stored.unit p.unit in
        recomputed (if same then stored else drain_pending l stored)
          (elim (Bool-cases same) [ inl e ↦ rw e (unchanged e) | inr e ↦ rw e drained ])

  module _ (p : Partial) (t : Tidy payload plan p) (done : is_complete p ≡ true) where
    pub all_landed : (i : ℕ) → i < plan.total → bit p.got i ≡ true
    unfolding is_complete
    all_landed i h =
        ones-bit 64 p.total p.got done i (omega (arith, t.fits.same_total))
          (omega (arith, v.total_small))

    -- The first chunk and a middle one place every other.
    all_placed : (i : ℕ) → i < plan.total → pos_of p.first_len p.unit i ≡ some (start plan i)
    all_placed i h =
        let first = t.fits.first_known (all_landed 0 (omega arith)) in
        rw first (
          pos_of_known payload plan limit v p.unit i h
            (λ two. t.fits.unit_known 1 (omega arith) (omega arith) (all_landed 1 (omega arith))))

    nothing_waits : p.pending ≡ []
    nothing_waits = none_left p.pending t.fits.genuine t.stuck
      where
        none_left :
            (cs : List PendingChunk)
            → All (IsPiece payload plan) cs
            → All (Stuck p.first_len p.unit) cs
            → cs ≡ []
        none_left [] own stuck = refl
        none_left (c ∷ cs) own stuck = absurd (cc (all_placed c.idx own.0.0, stuck.0))

    held : (i : ℕ) → i < plan.total → HoldsPiece payload plan p.buf i
    held i h = elim (t.fits.landed i h (all_landed i h)) [
      | inl w ↦ absurd (cc (ap (waits i) nothing_waits, w))
      | inr there ↦ there
    ]

    prefix : (k : ℕ) → k < plan.total → Holds payload p.buf 0 (stop payload plan limit v k)
    prefix zero h j above below = held 0 h j above below
    prefix (suc k) h j above below = elim (Bool-cases (ltb j (stop payload plan limit v k))) [
      | inl e ↦ prefix k (omega arith) j above (ltb→lt j (stop payload plan limit v k) e)
      | inr e ↦
          let next = stop_next payload plan limit v k (omega arith) in
          let same = start_at plan (k + 1) (suc k) (omega arith) in
          held (suc k) h j (ground (arith, e, next, same)) below
    ]

    -- A complete partial holds the payload.
    pub buf_whole : p.buf ≡ payload
    buf_whole =
        let k = plan.total - 1 in
        let last = stop_last payload plan limit v k (omega arith) in
        same_prefix p.buf payload t.fits.within
          (λ j h. prefix k (omega arith) j (omega arith) (omega (arith, last)))
