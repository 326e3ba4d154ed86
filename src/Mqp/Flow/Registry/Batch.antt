-- ===== src/Mqp/Flow/Registry/Batch.antt =====
-- src/mqp/r2_flow.rs: `remove_sessions` against `remove_session` on each session in turn.
use my_quic.Common.{
  ℕ, ◌+◌, ◌<◌, ◌^◌, ◌≡◌, refl, ap, ◌∙◌, none, some, List, [], ◌∷◌, arith, Option-cases, inl, inr,
}
use my_quic.Common.Assoc.{lookup, erase}
use my_quic.Mqp.Flow.Binding.{Store}
use my_quic.Mqp.Flow.Registry.{FlowRegistry}
use my_quic.Mqp.Flow.Registry.Purge.{
  Sweep, purge_one, purge, start, finish, remove_session, take_sessions, purge_all, remove_sessions,
}
use my_quic.Mqp.Flow.Registry.Tally.{erase-none}
use my_quic.Mqp.Flow.Registry.Invariant.{Consistent}
use my_quic.Mqp.Flow.Registry.Reap.{remove_session-Reaped}

-- The sessions one by one, each as a call of its own.
unfoldable pub each : List ℕ → FlowRegistry → Store → ℕ × FlowRegistry × Store
each [] r h = (0, r, h)
each (s ∷ ss) r h =
    let (n, r', h') = remove_session s r h in let (m, r'', h'') = each ss r' h' in (n + m, r'', h'')

-- The tally starts from another number.
abbrev shift : ℕ → Sweep → Sweep
shift n w = record w { removed = n + w.removed }

purge_one-shift : (n k : ℕ) (w : Sweep) → purge_one k (shift n w) ≡ shift n (purge_one k w)
unfolding purge_one
purge_one-shift n k w = elim (Option-cases (lookup k w.map)) [
  | inl e ↦ rw (e, purge_one) refl
  | inr (b, e) ↦ rw (e, purge_one) (ground arith)
]

purge-shift : (n : ℕ) (ids : List ℕ) (w : Sweep) → purge ids (shift n w) ≡ shift n (purge ids w)
unfolding purge
purge-shift n [] w = refl
purge-shift n (k ∷ ids) w =
    ap (purge ids) (purge_one-shift n k w) ∙ purge-shift n ids (purge_one k w)

purge_all-shift :
    (n : ℕ) (lists : List (List ℕ)) (w : Sweep)
    → purge_all lists (shift n w) ≡ shift n (purge_all lists w)
unfolding purge_all
purge_all-shift n [] w = refl
purge_all-shift n (ids ∷ lists) w =
    ap (purge_all lists) (purge-shift n ids w) ∙ purge_all-shift n lists (purge ids w)

batch : List ℕ → FlowRegistry → Store → ℕ × FlowRegistry × Store
batch ss r h =
    let (lists, by_session) = take_sessions ss r.by_session in
    finish r by_session (purge_all lists (start r h))

batch_nil : (r : FlowRegistry) (h : Store) → batch [] r h ≡ (0, r, h)
unfolding batch take_sessions purge_all
batch_nil r h = refl

module _ (s : ℕ) (ss : List ℕ) (r : FlowRegistry) (h : Store) where
  batch_unknown : lookup s r.by_session ≡ none → batch (s ∷ ss) r h ≡ batch ss r h
  unfolding batch take_sessions
  batch_unknown e = rw (e, batch, take_sessions) (rw (erase-none s r.by_session e) refl)

  -- The state after the ids of the first session.
  abbrev after : List ℕ → Sweep
  after ids = purge ids (start r h)

  abbrev after_reg : List ℕ → FlowRegistry
  after_reg ids = (finish r (erase s r.by_session) (after ids)).1

  after-shift :
      (ids : List ℕ)
      → after ids ≡ shift (after ids).removed (start (after_reg ids) (after ids).store)
  after-shift ids = ground arith

  batch_known :
      {ids : List ℕ}
      → lookup s r.by_session ≡ some ids
      → batch (s ∷ ss) r h ≡ (
          let (m, r'', h'') = batch ss (after_reg ids) (after ids).store in
          ((after ids).removed + m, r'', h''))
  unfolding batch take_sessions purge_all
  batch_known {ids} e =
      let lists = (take_sessions ss (erase s r.by_session)).0 in
      let by_session = (take_sessions ss (erase s r.by_session)).1 in
      let swept : purge_all lists (after ids)
          ≡ shift (after ids).removed (purge_all lists (start (after_reg ids) (after ids).store)) =
        ap (purge_all lists) (after-shift ids)
        ∙ purge_all-shift (after ids).removed lists (start (after_reg ids) (after ids).store) in
      rw (e, batch, take_sessions) (ap (finish r by_session) swept)

batch-each : (ss : List ℕ) (r : FlowRegistry) (h : Store) → batch ss r h ≡ each ss r h
unfolding each batch remove_session
batch-each [] r h = batch_nil r h
batch-each (s ∷ ss) r h = elim (Option-cases (lookup s r.by_session)) [
  | inl e ↦ rw (e, remove_session) (batch_unknown s ss r h e ∙ ground (arith, batch-each ss r h))
  | inr (ids, e) ↦
      rw (e, remove_session)
        (batch_known s ss r h e
          ∙ ground (arith, batch-each ss (after_reg s ss r h ids) (after s ss r h ids).store))
]

-- One batch returns and leaves what the sessions one after the other do: the same number, table,
-- index, counter and store.
pub remove_sessions-each :
    (ss : List ℕ) (r : FlowRegistry) (h : Store) → remove_sessions ss r h ≡ each ss r h
unfolding remove_sessions each batch
remove_sessions-each [] r h = refl
remove_sessions-each (s ∷ ss) r h = batch-each (s ∷ ss) r h

each-Consistent :
    (ss : List ℕ) (r : FlowRegistry) (h : Store)
    → Consistent r
    → r.cap < 2 ^ 64
    → Consistent (each ss r h).1 × ((each ss r h).1.cap ≡ r.cap) × ((each ss r h).2.fresh ≡ h.fresh)
unfolding each
each-Consistent [] r h c small = (c, refl, refl)
each-Consistent (s ∷ ss) r h c small =
    let g = (remove_session-Reaped s r h c small).1 in
    let (c', e, f) = each-Consistent ss _ _ g.consistent (rw g.same_cap small) in
    (c', e ∙ g.same_cap, f ∙ g.same_fresh)

pub remove_sessions-Consistent :
    (ss : List ℕ) (r : FlowRegistry) (h : Store)
    → Consistent r
    → r.cap < 2 ^ 64
    → Consistent (remove_sessions ss r h).1
      × ((remove_sessions ss r h).1.cap ≡ r.cap)
      × ((remove_sessions ss r h).2.fresh ≡ h.fresh)
remove_sessions-Consistent ss r h c small =
    rw (remove_sessions-each ss r h) (each-Consistent ss r h c small)
