-- ===== src/Client/Rejects/Window.antt =====
-- src/bin/myquic2-client/rev2.rs: how long a rejected target stays rejected.
use my_quic.Common.{
  ℕ, ◌≡◌, refl, Bool, true, false, not, ◌&&◌, ◌||◌, [], ◌∷◌, arith, Bool-cases, inl, inr,
}
use my_quic.Mqp.Addr.{TargetAddrRef}
use my_quic.Mqp.Flow.Binding.{target_eq}
use my_quic.Client.Rejects.{Rejected, expired, retain_live, has_target, scan_rejected, is_rejected}

-- Whether an entry of the target is in its window.
unfoldable pub is_live : TargetAddrRef → ℕ → Rejected → Bool
is_live a now [] = false
is_live a now (e ∷ es) = target_eq e.target a && not (expired now e) || is_live a now es

any_expired : ℕ → Rejected → Bool
any_expired now [] = false
any_expired now (e ∷ es) = expired now e || any_expired now es

module _ (a : TargetAddrRef) (now : ℕ) where
  scan_rejected_lem :
      (stale hit : Bool) (es : Rejected)
      → scan_rejected a now (stale, hit) es ≡ (stale || any_expired now es, hit || has_target a es)
  unfolding scan_rejected any_expired has_target
  scan_rejected_lem true true [] = refl
  scan_rejected_lem true false [] = refl
  scan_rejected_lem false true [] = refl
  scan_rejected_lem false false [] = refl
  scan_rejected_lem stale hit (e ∷ es) =
      ground (arith, scan_rejected_lem (stale || expired now e) (hit || target_eq e.target a) es)

  retain_live-is_live : (es : Rejected) → has_target a (retain_live now es) ≡ is_live a now es
  unfolding retain_live has_target is_live
  retain_live-is_live [] = refl
  retain_live-is_live (e ∷ es) = ground (arith, retain_live-is_live es)

  fresh-is_live : (es : Rejected) → any_expired now es ≡ false → has_target a es ≡ is_live a now es
  unfolding any_expired has_target is_live
  fresh-is_live [] h = refl
  fresh-is_live (e ∷ es) h = ground (arith, fresh-is_live es)

  -- With no other thread between the two locks, `is_rejected` answers whether some entry of the target
  -- is in its window, whether or not the table has to be pruned.
  pub is_rejected-is_live : (es : Rejected) → (is_rejected a now es es).0 ≡ is_live a now es
  unfolding is_rejected
  is_rejected-is_live es = elim (Bool-cases (any_expired now es)) [
    | inl e ↦ rw (is_rejected, scan_rejected_lem false false es, e) (retain_live-is_live es)
    | inr e ↦ rw (is_rejected, scan_rejected_lem false false es, e) (fresh-is_live es e)
  ]
