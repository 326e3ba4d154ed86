-- ===== src/Udp/Partial/Arrive.antt =====
-- src/udp/r2_reasm.rs: a chunk of the planned payload arrives.
use my_quic.Common.{
  ℕ, ◌+◌, ◌≤◌, ◌<◌, ◌≡◌, refl, ap, ◌∙◌, sym, Bool, true, false, ◌||◌, Option, none, some, arith,
  ◌==◌, length, All-append, Bool-cases, Option-cases, inl, inr, ==→eq, subst,
}
use my_quic.Common.Bytes.{Bytes}
use my_quic.Udp.Frag.{FragPlan}
use my_quic.Udp.Frag.Split.{start, Planned, piece}
use my_quic.Udp.Partial.{
  Layout, Partial, bit, pos_of, store_chunk, arrived, is_middle, or_width, first_after, unit_after,
}
use my_quic.Udp.Partial.Lists.{waits-append, length-set_bit, bit-set_bit}
use my_quic.Udp.Partial.Sent.{
  Agrees, pos_of-some, first_width, middle_width, written_within, written-Holds_new,
}
use my_quic.Udp.Partial.Fits.{IsPiece, HoldsPiece, Fits, put_bytes-buf, written-Kept}

or_width_known : (w n : ℕ) (unit : Option ℕ) → n ≡ w → Agrees w unit → or_width n unit ≡ some w
or_width_known w n none e a = ap some e
or_width_known w n (some x) e a = ap some a

some-Agrees : (w : ℕ) (o : Option ℕ) → o ≡ some w → Agrees w o
some-Agrees w none e = absurd (cc)
some-Agrees w (some x) e = cc

first_own : (idx n : ℕ) (p : Partial) → (idx == 0) ≡ true → first_after idx n p ≡ some n
first_own idx n p e = rw e refl

first_other : (idx n : ℕ) (p : Partial) → (idx == 0) ≡ false → first_after idx n p ≡ p.first_len
first_other idx n p e = rw e refl

module _ (payload : Bytes) (plan : FragPlan) (limit : ℕ) (v : Planned limit (length payload) plan)
    (l : Layout) (several : 2 ≤ plan.total) (p : Partial) (f : Fits payload plan p) (idx : ℕ)
    (inside : idx < plan.total) where
  abbrev pub chunk : Bytes
  chunk = piece plan payload idx

  abbrev pub after : Partial
  after = arrived idx chunk p

  bit_after : (j : ℕ) → bit after.got j ≡ (idx == j || bit p.got j)
  unfolding arrived
  bit_after j = bit-set_bit p.got idx j (omega (arith, f.mask, v.total_small))

  first_here : (idx == 0) ≡ true → after.first_len ≡ some plan.first_chunk
  unfolding arrived
  first_here e =
      first_own idx (length chunk) p e
      ∙ ap (λ i. some (length (piece plan payload i))) (==→eq idx 0 e)
      ∙ ap some (first_width payload plan limit v several)

  first_before : (idx == 0) ≡ false → after.first_len ≡ p.first_len
  unfolding arrived
  first_before e = first_other idx (length chunk) p e

  pub after-first_ok : Agrees plan.first_chunk after.first_len
  after-first_ok = elim (Bool-cases (idx == 0)) [
    | inl e ↦ some-Agrees plan.first_chunk after.first_len (first_here e)
    | inr e ↦ subst (Agrees plan.first_chunk) (sym (first_before e)) f.first_ok
  ]

  after_first_known : bit after.got 0 ≡ true → after.first_len ≡ some plan.first_chunk
  after_first_known b = elim (Bool-cases (idx == 0)) [
    | inl e ↦ first_here e
    | inr e ↦ first_before e ∙ f.first_known (ground (arith, bit_after 0, e, b))
  ]

  middle : Bool
  middle = is_middle p.total idx

  middle_unit : middle ≡ true → or_width (length chunk) p.unit ≡ some plan.rest_chunk
  unfolding middle
  middle_unit m =
      or_width_known plan.rest_chunk (length chunk) p.unit
        (middle_width payload plan limit v idx (ground (arith, f.same_total, m))
          (ground (arith, f.same_total, m)))
        f.unit_ok

  pub after-unit_ok : Agrees plan.rest_chunk after.unit
  unfolding arrived middle
  after-unit_ok = elim (Bool-cases middle) [
    | inl e ↦ rw (e, unit_after) (some-Agrees plan.rest_chunk _ (middle_unit e))
    | inr e ↦ rw (e, unit_after) f.unit_ok
  ]

  after_unit_known :
      (i : ℕ)
      → 1 ≤ i
      → i + 1 < plan.total
      → bit after.got i ≡ true
      → after.unit ≡ some plan.rest_chunk
  unfolding arrived middle
  after_unit_known i one h b = elim (Bool-cases middle) [
    | inl e ↦ rw (e, unit_after) (middle_unit e)
    | inr e ↦
        rw (e, unit_after) (f.unit_known i one h (ground (arith, bit_after i, f.same_total, e, b)))
  ]

  queue_bit : (j : ℕ) → bit after.got j ≡ true → (idx == j) ≡ false → bit p.got j ≡ true
  queue_bit j b e = ground (arith, bit_after j, b, e)

  -- The chunk joins the queue.
  queued-Fits : Fits payload plan (store_chunk l idx chunk none after)
  unfolding arrived
  queued-Fits = record {
    same_total = f.same_total;
    mask = length-set_bit p.got idx ∙ f.mask;
    first_ok = after-first_ok;
    first_known = after_first_known;
    unit_ok = after-unit_ok;
    unit_known = after_unit_known;
    within = f.within;
    landed = λ j h b. elim (Bool-cases (idx == j)) [
      | inl e ↦ inl (waits-append j p.pending _ ∙ rw e refl)
      | inr e ↦ elim (f.landed j h (queue_bit j b e)) [
        | inl w ↦ inl (waits-append j p.pending _ ∙ ground (arith, w, e))
        | inr held ↦ inr held
      ]
    ];
    genuine = All-append (IsPiece payload plan) p.pending _ f.genuine ((inside, refl), tt);
  }

  -- The chunk goes to its place.
  placed_here-Fits : Fits payload plan (store_chunk l idx chunk (some (start plan idx)) after)
  unfolding arrived
  placed_here-Fits =
      let q = store_chunk l idx chunk (some (start plan idx)) after in
      let same = put_bytes-buf payload plan limit v l p idx inside in
      record {
        same_total = f.same_total;
        mask = length-set_bit p.got idx ∙ f.mask;
        first_ok = after-first_ok;
        first_known = after_first_known;
        unit_ok = after-unit_ok;
        unit_known = after_unit_known;
        within = rw same (written_within payload plan limit v p.buf idx inside f.within);
        landed = λ j h b. elim (Bool-cases (idx == j)) [
          | inl e ↦ inr (
              subst (HoldsPiece payload plan q.buf) (==→eq idx j e) (
                subst (λ (bytes : Bytes). HoldsPiece payload plan bytes idx) (sym same)
                  (written-Holds_new payload plan limit v p.buf idx)))
          | inr e ↦
              written-Kept payload plan limit v l p q idx j inside h same (λ w. ground (arith, w))
                (f.landed j h (queue_bit j b e))
        ];
        genuine = f.genuine;
      }

  -- The chunk is stored by its position.
  pub stored-Fits :
      Fits payload plan (store_chunk l idx chunk (pos_of after.first_len after.unit idx) after)
  stored-Fits = elim (Option-cases (pos_of after.first_len after.unit idx)) [
    | inl e ↦ rw e queued-Fits
    | inr (pos, e) ↦
        let own =
          pos_of-some payload plan limit v after.first_len after.unit idx after-first_ok
            after-unit_ok e in
        rw (e, own) placed_here-Fits
  ]
