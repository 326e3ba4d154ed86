-- ===== src/Mqp/Flow/Registry/Probe.antt =====
-- src/mqp/r2_flow.rs: the counter in front of the scan of `find_server_flow`.
use my_quic.Common.{ℕ, ◌≡◌, refl, none, [], ◌∷◌, arith}
use my_quic.Mqp.Addr.{TargetAddrRef}
use my_quic.Mqp.Flow.Registry.{FlowRegistry, Bindings, scan_server_flow, find_server_flow}
use my_quic.Mqp.Flow.Registry.Tally.{owned}
use my_quic.Mqp.Flow.Registry.Invariant.{Consistent}

none_owned :
    (s : ℕ) (a : TargetAddrRef) (m : Bindings) → owned m ≡ 0 → scan_server_flow s a m ≡ none
unfolding owned scan_server_flow
none_owned s a [] h = refl
none_owned s a ((k, b) ∷ m) h = ground (arith, none_owned s a m)

-- On a consistent registry the counter never hides a flow: `find_server_flow` finds what a scan of
-- the whole table finds.
pub find_server_flow-scan :
    (s : ℕ) (a : TargetAddrRef) (r : FlowRegistry)
    → Consistent r
    → find_server_flow s a r ≡ scan_server_flow s a r.map
unfolding find_server_flow
find_server_flow-scan s a r c = ground (arith, none_owned s a r.map, c.counted)
