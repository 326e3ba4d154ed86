-- ===== src/Mqp/Flow/Registry/Purge.antt =====
-- src/mqp/r2_flow.rs: `FlowRegistry::remove_session` and `remove_sessions`.
use my_quic.Common.{ℕ, ◌+◌, none, some, List, [], ◌∷◌, if◌then◌else◌}
use my_quic.Common.Assoc.{lookup, erase}
use my_quic.Mqp.R2.{wire_id_server_owned}
use my_quic.Mqp.Flow.Binding.{Store, cell_of, write, mark_closed}
use my_quic.Mqp.Flow.Registry.{FlowRegistry, Bindings, Sessions, fetch_sub}

-- The loop variables of a purge.
pub record Sweep : Type 0 where
  pub removed : ℕ
  pub map : Bindings
  pub count : ℕ
  pub store : Store

-- The body of the loop.
unfoldable pub purge_one : ℕ → Sweep → Sweep
unfolding lookup erase mark_closed
purge_one wire_id s = elim (lookup wire_id s.map) [
  | none ↦ s
  | some b ↦ record {
    removed = s.removed + 1;
    map = erase wire_id s.map;
    count = if wire_id_server_owned b.wire_id then fetch_sub s.count else s.count;
    store = write s.store b (mark_closed (cell_of s.store b));
  }
]

unfoldable pub purge : List ℕ → Sweep → Sweep
unfolding purge_one
purge [] s = s
purge (wire_id ∷ ids) s = purge ids (purge_one wire_id s)

abbrev pub start : FlowRegistry → Store → Sweep
start r h = record { removed = 0; map = r.map; count = r.server_flow_count; store = h }

abbrev pub finish : FlowRegistry → Sessions → Sweep → ℕ × FlowRegistry × Store
finish r by_session s = (
  s.removed,
  record r { map = s.map; by_session = by_session; server_flow_count = s.count },
  s.store,
)

unfoldable pub remove_session : ℕ → FlowRegistry → Store → ℕ × FlowRegistry × Store
unfolding lookup erase purge
remove_session session r h = elim (lookup session r.by_session) [
  | none ↦ (0, r, h)
  | some ids ↦ finish r (erase session r.by_session) (purge ids (start r h))
]

-- `filter_map` of `by_session.remove`: the lists that were found, and the index that is left.
unfoldable pub take_sessions : List ℕ → Sessions → List (List ℕ) × Sessions
unfolding lookup erase
take_sessions [] m = ([], m)
take_sessions (s ∷ ss) m =
    let (lists, m') = take_sessions ss (erase s m) in
    (elim (lookup s m) [ none ↦ lists | some ids ↦ ids ∷ lists ], m')

unfoldable pub purge_all : List (List ℕ) → Sweep → Sweep
unfolding purge
purge_all [] s = s
purge_all (ids ∷ lists) s = purge_all lists (purge ids s)

unfoldable pub remove_sessions : List ℕ → FlowRegistry → Store → ℕ × FlowRegistry × Store
unfolding take_sessions purge_all
remove_sessions [] r h = (0, r, h)
remove_sessions (s ∷ ss) r h =
    let (lists, by_session) = take_sessions (s ∷ ss) r.by_session in
    finish r by_session (purge_all lists (start r h))
