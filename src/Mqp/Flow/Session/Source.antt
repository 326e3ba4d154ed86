-- ===== src/Mqp/Flow/Session/Source.antt =====
-- src/mqp/r2_flow.rs: `match_source` in one pass against three scans, one for each class of match.
use my_quic.Common.{◌≡◌, refl, Bool, true, ◌&&◌, ◌||◌, Option, none, some, List, [], ◌∷◌, arith}
use my_quic.Mqp.Addr.{SocketAddr}
use my_quic.Mqp.Flow.Binding.{FlowBinding, Store}
use my_quic.Mqp.Flow.Session.{
  Slot, SessionFlows, SourceMatch, exact, find_binding, is_learned, names_source, same_ip, is_acked,
  or_else, conclude, scan_source, match_source,
}

module _ (h : Store) (src : SocketAddr) where
  -- A learned source that the peer confirmed, or knows as the target.
  abbrev pub is_confirmed : FlowBinding → Bool
  is_confirmed b = is_learned h src b && (is_acked h b || names_source src b)

  abbrev pub is_candidate : FlowBinding → Bool
  is_candidate b = is_learned h src b || same_ip h src b

  -- `found`, or what a scan finds.
  abbrev pub or_scan : Slot → Slot → Slot
  or_scan (some a) later = some a
  or_scan none later = later

  abbrev pub classes : Slot → Slot → List Slot → Option SourceMatch
  classes strong weak es = elim (find_binding is_confirmed es) [
    | some b ↦ some (exact b)
    | none ↦
        conclude (or_scan strong (find_binding (names_source src) es))
          (or_scan weak (find_binding is_candidate es))
  ]

  scan_source-classes :
      (strong weak : Slot) (es : List Slot)
      → scan_source h src strong weak es ≡ classes strong weak es
  unfolding scan_source find_binding
  scan_source-classes none none [] = refl
  scan_source-classes none (some b) [] = refl
  scan_source-classes (some a) weak [] = refl
  scan_source-classes strong weak (none ∷ es) = scan_source-classes strong weak es
  scan_source-classes strong weak (some b ∷ es) = ground (
    arith,
    scan_source-classes strong (or_else weak true b) es,
    scan_source-classes (or_else strong (names_source src b) b) (or_else weak (same_ip h src b) b)
        es,
  )

  -- One pass of `match_source` answers as three scans of the table would, in this order: the first
  -- binding with the source learned and confirmed is an exact match; or else the first whose target
  -- is the source; or else the first with the source learned, or with its address, is to be bound
  -- again; and with none of these there is no match.
  pub match_source-scans :
      (t : SessionFlows)
      → match_source h src t ≡ (elim (find_binding is_confirmed t.entries) [
        | some b ↦ some (exact b)
        | none ↦
            conclude
              (find_binding (names_source src) t.entries)
              (find_binding is_candidate t.entries)
      ])
  unfolding match_source
  match_source-scans t = scan_source-classes none none t.entries
