-- ===== src/Udp/Partial/Drain.antt =====
-- src/udp/r2_reasm.rs, `drain_pending`: afterwards only chunks wait whose place is not known.
use my_quic.Common.{
  ℕ, zero, suc, ◌+◌, ◌≤◌, ◌≡◌, refl, ap, sym, Option, none, some, List, [], ◌∷◌, arith, length,
  get_elem?, take, All, Option-cases, inl, inr, subst,
}
use my_quic.Common.Bytes.{Bytes}
use my_quic.Common.Index.{get_elem?-lt}
use my_quic.Udp.Frag.{FragPlan}
use my_quic.Udp.Frag.Split.{Planned}
use my_quic.Udp.Partial.{
  Layout, PendingChunk, Partial, pos_of, swap_remove, put_bytes, placement, drain_from,
}
use my_quic.Udp.Partial.Lists.{take-swap_remove, length-swap_remove, All-get_elem?}
use my_quic.Udp.Partial.Sent.{pos_of-some, stop_in}
use my_quic.Udp.Partial.Fits.{IsPiece, Fits, placed-Fits}

take_of_le {ℓ} : {A : Type ℓ} (n : ℕ) (xs : List A) → length xs ≤ n → take n xs ≡ xs
take_of_le zero [] h = refl
take_of_le zero (x ∷ xs) h = absurd (omega arith)
take_of_le (suc n) [] h = refl
take_of_le (suc n) (x ∷ xs) h = ap (◌∷◌ x) (take_of_le n xs (omega arith))

le_of_get_elem? {ℓ} : {A : Type ℓ} (n : ℕ) (xs : List A) → get_elem? xs n ≡ none → length xs ≤ n
le_of_get_elem? n [] h = omega arith
le_of_get_elem? zero (x ∷ xs) h = absurd (cc)
le_of_get_elem? (suc n) (x ∷ xs) h = omega (arith, le_of_get_elem? n xs h)

All-take_next {ℓ κ} :
    {A : Type ℓ} (P : A → Type κ) (n : ℕ) (xs : List A) {x : A}
    → get_elem? xs n ≡ some x
    → P x
    → All P (take n xs)
    → All P (take (suc n) xs)
All-take_next P n [] e px h = absurd (cc)
All-take_next {A} P zero (y ∷ ys) {x} e px h = let same : x ≡ y = cc in (subst P same px, tt)
All-take_next P (suc n) (y ∷ ys) e px h = (h.0, All-take_next P n ys e px h.1)

suc-eq-add : (n : ℕ) → suc n ≡ n + 1
suc-eq-add n = omega arith

-- The place of the chunk is not known.
abbrev pub Stuck : Option ℕ → Option ℕ → PendingChunk → Type 0
Stuck first_len unit c = pos_of first_len unit c.idx ≡ none

-- What the loop leaves of `p`.
pub record Drained (payload : Bytes) (plan : FragPlan) (p q : Partial) : Type 0 where
  pub fits : Fits payload plan q
  pub stuck : All (Stuck p.first_len p.unit) q.pending
  pub same_got : q.got ≡ p.got
  pub same_first : q.first_len ≡ p.first_len
  pub same_unit : q.unit ≡ p.unit
  pub same_ctx : q.ctx ≡ p.ctx

module _ (payload : Bytes) (plan : FragPlan) (limit : ℕ) (v : Planned limit (length payload) plan)
    (l : Layout) where
  placement-none :
      (p : Partial) (c : PendingChunk)
      → Fits payload plan p
      → IsPiece payload plan c
      → placement p c ≡ none
      → Stuck p.first_len p.unit c
  unfolding placement
  placement-none p c f own e = elim (Option-cases (pos_of p.first_len p.unit c.idx)) [
    | inl none_there ↦ none_there
    | inr (pos, there) ↦
        let at_start =
          pos_of-some payload plan limit v p.first_len p.unit c.idx f.first_ok f.unit_ok there in
        let refused = rw (there, placement) at e in
        absurd (
          ground (
            arith,
            stop_in payload plan limit v c.idx own.0,
            v.len_small,
            ap length own.1,
            at_start,
            refused,
          ))
  ]

  settled :
      (i : ℕ) (p : Partial)
      → Fits payload plan p
      → All (Stuck p.first_len p.unit) (take i p.pending)
      → length p.pending ≤ i
      → Drained payload plan p p
  settled i p f before h = record {
    fits = f;
    stuck = subst (All (Stuck p.first_len p.unit)) (take_of_le i p.pending h) before;
    same_got = refl;
    same_first = refl;
    same_unit = refl;
    same_ctx = refl;
  }

  pub drain_from-Drained :
      (fuel i : ℕ) (p : Partial)
      → Fits payload plan p
      → All (Stuck p.first_len p.unit) (take i p.pending)
      → length p.pending ≤ i + fuel
      → Drained payload plan p (drain_from l fuel i p)
  unfolding drain_from
  drain_from-Drained zero i p f before h = settled i p f before (omega arith)
  drain_from-Drained (suc fuel) i p f before h = elim (Option-cases (get_elem? p.pending i)) [
    | inl e ↦ rw (e, drain_from) (settled i p f before (le_of_get_elem? i p.pending e))
    | inr (c, e) ↦ elim (Option-cases (placement p c)) [
      | inl waiting ↦
          let own = All-get_elem? (IsPiece payload plan) i p.pending f.genuine e in
          let next =
            subst (λ n. All (Stuck p.first_len p.unit) (take n p.pending)) (suc-eq-add i)
              (All-take_next (Stuck p.first_len p.unit) i p.pending e
                (placement-none p c f own waiting) before) in
          rw (e, drain_from)
            (rw (waiting, drain_from) (drain_from-Drained fuel (i + 1) p f next (omega arith)))
      | inr (pos, there) ↦
          let q = put_bytes l pos c.bytes (record p { pending = swap_remove i p.pending }) in
          let fits = placed-Fits payload plan limit v l p i c f e there in
          let shorter = length-swap_remove i p.pending (get_elem?-lt i p.pending e) in
          let before' =
            subst (All (Stuck p.first_len p.unit)) (sym (take-swap_remove i p.pending)) before in
          let d = drain_from-Drained fuel i q fits before' (omega arith) in
          rw (e, drain_from)
            (rw (there, drain_from)
              (record {
                fits = d.fits;
                stuck = d.stuck;
                same_got = d.same_got;
                same_first = d.same_first;
                same_unit = d.same_unit;
                same_ctx = d.same_ctx;
              }))
    ]
  ]
