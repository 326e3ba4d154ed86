-- ===== src/Client/Rejects.antt =====
-- src/bin/myquic2-client/rev2.rs: the targets that the server rejected, each for a window of time.
pub mod Window
pub mod Cache
use my_quic.Common.{
  ℕ, ◌+◌, ◌-◌, Bool, true, false, ◌&&◌, ◌||◌, List, [], ◌∷◌, ◌++◌, ◌==◌, leb, ltb, if◌then◌else◌,
  length, drop,
}
use my_quic.Mqp.Addr.{TargetAddrRef}
use my_quic.Mqp.Flow.Binding.{target_eq}

abbrev pub reject_ttl_transient_ms : ℕ
reject_ttl_transient_ms = 1000

abbrev pub reject_ttl_policy_ms : ℕ
reject_ttl_policy_ms = 30000

abbrev pub max_rejected_targets : ℕ
max_rejected_targets = 64

abbrev pub reject_policy : ℕ
reject_policy = 1

abbrev pub reject_table_full : ℕ
reject_table_full = 2

abbrev pub reject_dns : ℕ
reject_dns = 3

unfoldable pub reject_ttl_ms : ℕ → ℕ
reject_ttl_ms reason =
    if reason == reject_table_full || reason == reject_dns
    then reject_ttl_transient_ms
    else reject_ttl_policy_ms

pub record RejectedTarget : Type 0 where
  pub target : TargetAddrRef
  pub rejected_at_ms : ℕ
  pub ttl_ms : ℕ

abbrev pub Rejected : Type 0
Rejected = List RejectedTarget

-- `saturating_sub` is the subtraction of ℕ.
abbrev pub expired : ℕ → RejectedTarget → Bool
expired now e = leb e.ttl_ms (now - e.rejected_at_ms)

unfoldable pub retain_live : ℕ → Rejected → Rejected
retain_live now [] = []
retain_live now (e ∷ es) = if expired now e then retain_live now es else e ∷ retain_live now es

-- Whether an entry has the target.
unfoldable pub has_target : TargetAddrRef → Rejected → Bool
has_target a [] = false
has_target a (e ∷ es) = target_eq e.target a || has_target a es

-- The first entry of the target starts a new window.
unfoldable pub renew : TargetAddrRef → ℕ → ℕ → Rejected → Rejected
renew a ttl now [] = []
renew a ttl now (e ∷ es) =
    if target_eq e.target a
    then record e { rejected_at_ms = now; ttl_ms = ttl } ∷ es
    else e ∷ renew a ttl now es

unfoldable pub note_rejected : TargetAddrRef → ℕ → ℕ → Rejected → Rejected
unfolding has_target renew retain_live
note_rejected a reason now es =
    let live = retain_live now es in
    let entry : RejectedTarget = record {
      target = a;
      rejected_at_ms = now;
      ttl_ms = reject_ttl_ms reason;
    } in
    if has_target a live
    then renew a (reject_ttl_ms reason) now live
    else if leb max_rejected_targets (length live)
    then drop 1 live ++ entry ∷ []
    else live ++ entry ∷ []

-- The scan under the shared lock: `stale` and `hit`.
unfoldable pub scan_rejected : TargetAddrRef → ℕ → Bool × Bool → Rejected → Bool × Bool
scan_rejected a now (stale, hit) [] = (stale, hit)
scan_rejected a now (stale, hit) (e ∷ es) =
    scan_rejected a now (stale || expired now e, hit || target_eq e.target a) es

-- The answer, and the table after a prune. `between` is the table when the exclusive lock is held,
-- which another thread may have changed since the scan.
unfoldable pub is_rejected : TargetAddrRef → ℕ → Rejected → Rejected → Bool × Rejected
unfolding scan_rejected retain_live has_target
is_rejected a now es between =
    let (stale, hit) = scan_rejected a now (false, false) es in
    if stale
    then (has_target a (retain_live now between), retain_live now between)
    else (hit, between)
