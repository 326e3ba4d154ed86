-- ===== src/Mqp/Flow/Registry/Reap.antt =====
-- src/mqp/r2_flow.rs: `remove_session` and `remove_sessions` against a walk over the whole table.
use my_quic.Common.{
  ℕ, ◌≤◌, ◌<◌, ◌^◌, ◌≡◌, refl, sym, ap, ◌∙◌, none, some, List, [], ◌∷◌, ◌==◌, if◌then◌else◌, arith,
  length, Bool-cases, Option-cases, inl, inr,
}
use my_quic.Common.Assoc.{lookup, erase, occurs}
use my_quic.Mqp.Flow.Binding.{Store}
use my_quic.Mqp.Flow.Registry.{FlowRegistry, Bindings, Sessions}
use my_quic.Mqp.Flow.Registry.Purge.{Sweep, start, finish, remove_session}
use my_quic.Mqp.Flow.Registry.Tally.{
  count, held, of_session, others, ids_of, Keyed, lookup-occurs, occurs-erase, lookup-erase_other,
  erase-Unique, held_none, closes_none, count_nil,
}
use my_quic.Mqp.Flow.Registry.Sync.{Filled}
use my_quic.Mqp.Flow.Registry.Retain.{Purging, Purged, purge-Purged, close_session}
use my_quic.Mqp.Flow.Registry.Invariant.{Consistent}

held-others :
    (s t k : ℕ) (m : Bindings) → held t k (others s m) ≡ (if s == t then 0 else held t k m)
unfolding held others
held-others s t k [] = ground arith
held-others s t k ((i, b) ∷ m) = ground (arith, held-others s t k m)

occurs-others : (s k : ℕ) (m : Bindings) → occurs k (others s m) ≤ occurs k m
unfolding occurs others
occurs-others s k [] = omega arith
occurs-others s k ((i, b) ∷ m) = ground (arith, occurs-others s k m)

length-others : (s : ℕ) (m : Bindings) → length (others s m) ≤ length m
unfolding others
length-others s [] = omega arith
length-others s ((i, b) ∷ m) = ground (arith, length-others s m)

others-Keyed : (s : ℕ) (m : Bindings) → Keyed m → Keyed (others s m)
unfolding others
others-Keyed s [] h = tt
others-Keyed s ((i, b) ∷ m) h = ground (arith, others-Keyed s m h.1)

erase-Filled : (s : ℕ) (m : Sessions) → Filled m → Filled (erase s m)
unfolding erase
erase-Filled s [] h = tt
erase-Filled s ((i, b) ∷ m) h = ground (arith, erase-Filled s m h.1)

-- What a registry and the atomics are after the session is gone, said by a walk over the table.
pub record Reaped (s : ℕ) (r : FlowRegistry) (h : Store) (r' : FlowRegistry) (h' : Store)
    : Type 0 where
  pub same_cap : r'.cap ≡ r.cap
  pub map_others : r'.map ≡ others s r.map
  pub closed_all : (p : ℕ) → h'.cells p ≡ close_session s (start r h) p
  pub same_fresh : h'.fresh ≡ h.fresh
  pub consistent : Consistent r'

module _ (s : ℕ) (r : FlowRegistry) (h : Store) (c : Consistent r) (small : r.cap < 2 ^ 64) where
  ids_of_none : lookup s r.by_session ≡ none → (k : ℕ) → held s k r.map ≡ 0
  unfolding ids_of
  ids_of_none e k = ground (arith, c.listed s k, count_nil k)

  start-Purging : (ids : List ℕ) → lookup s r.by_session ≡ some ids → Purging s ids (start r h)
  unfolding ids_of
  start-Purging ids e = record {
    unique = c.unique;
    keyed = c.keyed;
    listed = λ k. ground (arith, c.listed s k);
    counted = c.counted;
    small = omega (arith, c.within);
  }

  -- A session that the index does not have has nothing in the table either.
  unknown-Reaped : lookup s r.by_session ≡ none → Reaped s r h r h
  unknown-Reaped e =
      let (same, none_left) = held_none s r.map (ids_of_none e) in
      record {
        same_cap = refl;
        map_others = sym same;
        closed_all = λ p. rw (closes_none s p r.map none_left) refl;
        same_fresh = refl;
        consistent = c;
      }

  listed_after :
      {ids : List ℕ}
      → lookup s r.by_session ≡ some ids
      → (t k : ℕ) → count k (ids_of t (erase s r.by_session)) ≡ held t k (others s r.map)
  unfolding ids_of
  listed_after e t k = elim (Bool-cases (s == t)) [
    | inl same ↦ ground (
      arith,
      held-others s t k r.map,
      occurs-erase s t r.by_session e,
      c.sessions t,
      lookup-occurs t (erase s r.by_session),
      count_nil k,
    )
    | inr other ↦
        ground (arith, held-others s t k r.map, lookup-erase_other s t r.by_session, c.listed t k)
  ]

  Purged-Reaped :
      {ids : List ℕ} {w : Sweep}
      → lookup s r.by_session ≡ some ids
      → Purged s (start r h) w
      → Reaped s r h (finish r (erase s r.by_session) w).1 (finish r (erase s r.by_session) w).2
  Purged-Reaped {ids} {w} e g = record {
    same_cap = refl;
    map_others = g.map_others;
    closed_all = g.closed_all;
    same_fresh = g.same_fresh;
    consistent = record {
      unique = λ k. rw g.map_others (omega (arith, occurs-others s k r.map, c.unique k));
      keyed = rw g.map_others (others-Keyed s r.map c.keyed);
      listed = λ t k. listed_after e t k ∙ ap (held t k) (sym g.map_others);
      sessions = erase-Unique s r.by_session e c.sessions;
      filled = erase-Filled s r.by_session c.filled;
      counted = g.counted;
      within = rw g.map_others (omega (arith, length-others s r.map, c.within));
    };
  }

-- `remove_session` on a consistent registry with a machine-sized cap, as the walk over the whole
-- table: it returns how many bindings the session had, the table keeps those of the others in their
-- order, the shared state of every binding of the session is closed and no other state changes,
-- the cap stays, and the registry is consistent again.
pub remove_session-Reaped :
    (s : ℕ) (r : FlowRegistry) (h : Store)
    → Consistent r
    → r.cap < 2 ^ 64
    → ((remove_session s r h).0 ≡ of_session s r.map)
      × Reaped s r h (remove_session s r h).1 (remove_session s r h).2
unfolding remove_session
remove_session-Reaped s r h c small = elim (Option-cases (lookup s r.by_session)) [
  | inl e ↦
      rw (e, remove_session)
        (sym (held_none s r.map (ids_of_none s r h c small e)).1, unknown-Reaped s r h c small e)
  | inr (ids, e) ↦
      let g = purge-Purged s ids (start r h) (start-Purging s r h c small ids e) in
      rw (e, remove_session) (g.removed_all ∙ omega arith, Purged-Reaped s r h c small e g)
]
