-- ===== src/Client/Rejects/Cache.antt =====
-- src/bin/myquic2-client/rev2.rs: the rejection cache after `note_rejected`.
use my_quic.Common.{
  ℕ, ◌+◌, ◌-◌, ◌≤◌, ◌<◌, ◌≡◌, refl, sym, ap, ◌∙◌, Bool, true, false, not, ◌&&◌, ◌||◌, [], ◌∷◌, ◌++◌,
  leb, length, drop, arith, Bool-cases, inl, inr, length-append, length-drop,
}
use my_quic.Mqp.Addr.{TargetAddrRef}
use my_quic.Mqp.Flow.Binding.{target_eq, target_eq_refl, target_eq→eq}
use my_quic.Client.Rejects.{
  RejectedTarget, Rejected, max_rejected_targets, reject_ttl_ms, expired, retain_live, has_target,
  renew, note_rejected, is_rejected,
}
use my_quic.Client.Rejects.Window.{is_live, is_rejected-is_live}

abbrev bit : Bool → ℕ
bit true = 1
bit false = 0

unfoldable pub copies : TargetAddrRef → Rejected → ℕ
copies a [] = 0
copies a (e ∷ es) = bit (target_eq e.target a) + copies a es

-- No target twice, and no more entries than the bound.
pub record IsCache (es : Rejected) : Type 0 where
  pub unique : (a : TargetAddrRef) → copies a es ≤ 1
  pub within : length es ≤ max_rejected_targets

module _ (a : TargetAddrRef) where
  retain-copies : (now : ℕ) (es : Rejected) → copies a (retain_live now es) ≤ copies a es
  unfolding copies retain_live
  retain-copies now [] = omega arith
  retain-copies now (e ∷ es) = ground (arith, retain-copies now es)

  append-copies :
      (e : RejectedTarget) (es : Rejected)
      → copies a (es ++ e ∷ []) ≡ copies a es + bit (target_eq e.target a)
  unfolding copies
  append-copies e [] = omega arith
  append-copies e (d ∷ es) = omega (arith, append-copies e es)

  drop-copies : (es : Rejected) → copies a (drop 1 es) ≤ copies a es
  unfolding copies
  drop-copies [] = omega arith
  drop-copies (d ∷ es) = omega arith

  absent_copies : (es : Rejected) → has_target a es ≡ false → copies a es ≡ 0
  unfolding copies has_target
  absent_copies [] h = refl
  absent_copies (d ∷ es) h = ground (arith, absent_copies es)

  copies_absent : (now : ℕ) (es : Rejected) → copies a es ≡ 0 → is_live a now es ≡ false
  unfolding copies is_live
  copies_absent now [] h = refl
  copies_absent now (d ∷ es) h = ground (arith, copies_absent now es)

  append-is_live :
      (now : ℕ) (e : RejectedTarget) (es : Rejected)
      → is_live a now (es ++ e ∷ [])
        ≡ (is_live a now es || (target_eq e.target a && not (expired now e)))
  unfolding is_live
  append-is_live now e [] = ground arith
  append-is_live now e (d ∷ es) = ground (arith, append-is_live now e es)

  module _ (ttl t : ℕ) where
    renew-copies : (b : TargetAddrRef) (es : Rejected) → copies b (renew a ttl t es) ≡ copies b es
    unfolding copies renew
    renew-copies b [] = refl
    renew-copies b (d ∷ es) = ground (arith, renew-copies b es)

    renew-length : (es : Rejected) → length (renew a ttl t es) ≡ length es
    unfolding renew
    renew-length [] = refl
    renew-length (d ∷ es) = ground (arith, renew-length es)

    renew-is_live :
        (now : ℕ) (es : Rejected)
        → has_target a es ≡ true
        → copies a es ≤ 1
        → is_live a now (renew a ttl t es) ≡ not (leb ttl (now - t))
    unfolding renew is_live has_target copies
    renew-is_live now [] h u = cc
    renew-is_live now (d ∷ es) h u = elim (Bool-cases (target_eq d.target a)) [
      | inl e ↦ ground (arith, copies_absent now es)
      | inr e ↦ ground (arith, renew-is_live now es)
    ]

retain-length : (now : ℕ) (es : Rejected) → length (retain_live now es) ≤ length es
unfolding retain_live
retain-length now [] = omega arith
retain-length now (e ∷ es) = ground (arith, retain-length now es)

pub retain-IsCache : (now : ℕ) (es : Rejected) → IsCache es → IsCache (retain_live now es)
retain-IsCache now es c = record {
  unique = λ a. omega (arith, retain-copies a now es, c.unique a);
  within = omega (arith, retain-length now es, c.within);
}

same_copies :
    (a b : TargetAddrRef) (es : Rejected) → target_eq a b ≡ true → copies b es ≡ copies a es
same_copies a b es e = ap (λ c. copies c es) (sym (target_eq→eq a b e))

module _ (a : TargetAddrRef) (ttl t : ℕ) where
  -- The entry that a rejection adds.
  abbrev entry : RejectedTarget
  entry = record { target = a; rejected_at_ms = t; ttl_ms = ttl }

  added_copies :
      (b : TargetAddrRef) (es : Rejected)
      → has_target a es ≡ false
      → copies b es ≤ 1
      → copies b (es ++ entry ∷ []) ≤ 1
  added_copies b es h u = elim (Bool-cases (target_eq a b)) [
    | inl e ↦ ground (arith, append-copies b entry es, same_copies a b es, absent_copies a es)
    | inr e ↦ ground (arith, append-copies b entry es)
  ]

  dropped_absent : (es : Rejected) → has_target a es ≡ false → has_target a (drop 1 es) ≡ false
  unfolding has_target
  dropped_absent [] h = refl
  dropped_absent (d ∷ es) h = ground arith

  added-IsCache :
      (es : Rejected)
      → has_target a es ≡ false
      → ((b : TargetAddrRef) → copies b es ≤ 1)
      → length es < max_rejected_targets
      → IsCache (es ++ entry ∷ [])
  added-IsCache es h u room = record {
    unique = λ b. added_copies b es h (u b);
    within = omega (arith, length-append es (entry ∷ []));
  }

  added-is_live :
      (now : ℕ) (es : Rejected)
      → has_target a es ≡ false
      → is_live a now (es ++ entry ∷ []) ≡ not (leb ttl (now - t))
  added-is_live now es h = ground (
    arith,
    append-is_live a now entry es,
    copies_absent a now es,
    absent_copies a es,
    target_eq_refl a,
  )

rejected_after :
    (a : TargetAddrRef) (reason t now : ℕ) (es : Rejected)
    → IsCache es
    → IsCache (note_rejected a reason t es)
      × (is_live a now (note_rejected a reason t es) ≡ not (leb (reject_ttl_ms reason) (now - t)))
unfolding note_rejected
rejected_after a reason t now es c =
    let live : Rejected = retain_live t es in
    let ttl : ℕ = reject_ttl_ms reason in
    let k : IsCache live = retain-IsCache t es c in
    elim (Bool-cases (has_target a live)) [
      | inl e ↦
          rw (e, note_rejected)
            (
              record {
                unique = λ b. omega (arith, renew-copies a ttl t b live, k.unique b);
                within = omega (arith, renew-length a ttl t live, k.within);
              },
              renew-is_live a ttl t now live e (k.unique a),
            )
      | inr e ↦ elim (Bool-cases (leb max_rejected_targets (length live))) [
        | inl f ↦
            rw (e, note_rejected, f)
              (
                added-IsCache a ttl t (drop 1 live) (dropped_absent a ttl t live e)
                    (λ b. omega (arith, drop-copies b live, k.unique b))
                    (omega (arith, length-drop 1 live, k.within)),
                added-is_live a ttl t now (drop 1 live) (dropped_absent a ttl t live e),
              )
        | inr f ↦
            rw (e, note_rejected, f)
              (
                added-IsCache a ttl t live e k.unique (ground arith),
                added-is_live a ttl t now live e,
              )
      ]
    ]

-- After a rejection of a target at a time `t`, in a cache with no target twice: the cache still has no
-- target twice and at most 64 entries, and `is_rejected` (with no other thread between its two locks)
-- answers at a time `now` that the target is rejected exactly when less time has passed since `t` than
-- the window of the reason, whatever else the cache held, pruned and evicted.
pub note_rejected_lem :
    (a : TargetAddrRef) (reason t now : ℕ) (es : Rejected)
    → IsCache es
    → IsCache (note_rejected a reason t es)
      × ((is_rejected a now (note_rejected a reason t es) (note_rejected a reason t es)).0
          ≡ not (leb (reject_ttl_ms reason) (now - t)))
note_rejected_lem a reason t now es c =
    let (k, e) = rejected_after a reason t now es c in
    (k, is_rejected-is_live a now (note_rejected a reason t es) ∙ e)
