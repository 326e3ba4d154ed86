-- ===== src/Mqp/Flow/Registry/Invariant.antt =====
-- src/mqp/r2_flow.rs: what holds of a registry between its operations, and that each keeps it.
use my_quic.Common.{
  ℕ, ◌+◌, ◌≤◌, ◌<◌, ◌^◌, ◌≡◌, refl, none, some, leb, arith, length, Bool-cases, Option-cases, inl,
  inr,
}
use my_quic.Common.Assoc.{lookup, erase, occurs}
use my_quic.Mqp.Flow.Binding.{FlowBinding}
use my_quic.Mqp.Flow.Registry.{
  FlowRegistry, new, fetch_add, index_binding, unindex_binding, add, insert, remove, clear,
  same_flow,
}
use my_quic.Mqp.Flow.Registry.Tally.{
  count, held, owned, ids_of, Keyed, Unique, occurs-lookup, erase-Unique, held-erase, owned-erase,
  length-erase, erase-Keyed, lookup-Keyed, owned-le-length,
}
use my_quic.Mqp.Flow.Registry.Retain.{fetch_sub_lem}
use my_quic.Mqp.Flow.Registry.Sync.{
  Filled, push_id-count, push_id-occurs, push_id-Filled, drop_id-count, drop_id-occurs,
  drop_id-Filled,
}

-- The two indexes say what the map holds.
pub record Consistent (r : FlowRegistry) : Type 0 where
  -- One binding under each id, and it has that id.
  pub unique : Unique r.map
  pub keyed : Keyed r.map
  -- The list of a session has exactly the ids of its bindings, each once.
  pub listed : (s k : ℕ) → count k (ids_of s r.by_session) ≡ held s k r.map
  pub sessions : Unique r.by_session
  pub filled : Filled r.by_session
  pub counted : r.server_flow_count ≡ owned r.map
  pub within : length r.map ≤ r.cap

pub new-Consistent : (cap : ℕ) → Consistent (new cap)
unfolding new count ids_of held owned lookup occurs
new-Consistent cap = record {
  unique = λ k. omega arith;
  keyed = tt;
  listed = λ s k. refl;
  sessions = λ k. omega arith;
  filled = tt;
  counted = refl;
  within = omega arith;
}

fetch_add_lem : (n m : ℕ) → n ≡ m → m + 1 < 2 ^ 64 → fetch_add n ≡ 1 + m
fetch_add_lem n m e h = omega arith

held_self : (k : ℕ) {b : FlowBinding} (m : _) → lookup k m ≡ some b → 1 ≤ held b.session k m
held_self k {b} m e = ground (arith, held-erase k b.session k m e)

module _ (r : FlowRegistry) (c : Consistent r) (small : r.cap < 2 ^ 64) where
  pub add-Consistent :
      (b : FlowBinding)
      → lookup b.wire_id r.map ≡ none
      → length r.map < r.cap
      → Consistent (add b r)
  unfolding index_binding held occurs owned
  add-Consistent b absent room = record {
    unique = λ k. ground (arith, c.unique k, occurs-lookup b.wire_id r.map);
    keyed = (refl, c.keyed);
    listed =
        λ s k. ground (arith, c.listed s k, push_id-count b.session b.wire_id s k r.by_session);
    sessions = λ s. ground (arith, c.sessions s, push_id-occurs b.session b.wire_id s r.by_session);
    filled = push_id-Filled b.session b.wire_id r.by_session c.filled;
    counted = ground (
      arith,
      fetch_add_lem r.server_flow_count (owned r.map) c.counted,
      owned-le-length r.map,
      c.counted,
    );
    within = omega (arith, room);
  }

  pub insert-Consistent : (b : FlowBinding) → Consistent (insert b r).1
  unfolding insert
  insert-Consistent b = elim (Option-cases (lookup b.wire_id r.map)) [
    | inr (old, e) ↦ elim (Bool-cases (same_flow old b)) [
      | inl f ↦ rw (e, insert, f) c
      | inr f ↦ rw (e, insert, f) c
    ]
    | inl e ↦ elim (Bool-cases (leb r.cap (length r.map))) [
      | inl f ↦ rw (e, insert, f) c
      | inr f ↦ rw (e, insert, f) (add-Consistent b e (ground arith))
    ]
  ]

  taken_count :
      (k : ℕ) {b : FlowBinding}
      → lookup k r.map ≡ some b
      → (unindex_binding b (record r { map = erase k r.map })).server_flow_count
        ≡ owned (erase k r.map)
  unfolding unindex_binding
  taken_count k {b} e = ground (
    arith,
    owned-erase k r.map e,
    c.counted,
    owned-le-length r.map,
    c.within,
    fetch_sub_lem r.server_flow_count (owned (erase k r.map)),
  )

  -- The table, the index and the counter after a binding is taken out.
  taken-Consistent :
      (k : ℕ) (b : FlowBinding)
      → lookup k r.map ≡ some b
      → Consistent (unindex_binding b (record r { map = erase k r.map }))
  unfolding unindex_binding
  taken-Consistent k b e =
      let i : b.wire_id ≡ k = lookup-Keyed k r.map c.keyed e in
      let there : 1 ≤ count b.wire_id (ids_of b.session r.by_session) =
        ground (arith, c.listed b.session k, held_self k r.map e) in
      record {
        unique = erase-Unique k r.map e c.unique;
        keyed = erase-Keyed k r.map c.keyed;
        listed = λ s j. ground (
          arith,
          c.listed s j,
          held-erase k s j r.map e,
          drop_id-count b.session b.wire_id s j r.by_session (c.sessions b.session) there,
        );
        sessions =
            λ s. omega (arith, c.sessions s, drop_id-occurs b.session b.wire_id s r.by_session);
        filled = drop_id-Filled b.session b.wire_id r.by_session c.filled;
        counted = taken_count k e;
        within = omega (arith, c.within, length-erase k r.map e);
      }

  pub remove-Consistent : (k : ℕ) → Consistent (remove k r).1
  unfolding remove
  remove-Consistent k = elim (Option-cases (lookup k r.map)) [
    | inl e ↦ rw (e, remove) c
    | inr (b, e) ↦ rw (e, remove) (taken-Consistent k b e)
  ]

pub clear-Consistent : (r : FlowRegistry) → Consistent (clear r).1
unfolding clear count ids_of held owned lookup occurs
clear-Consistent r = record {
  unique = λ k. omega arith;
  keyed = tt;
  listed = λ s k. refl;
  sessions = λ k. omega arith;
  filled = tt;
  counted = refl;
  within = omega arith;
}
