-- ===== src/Server/Install/Undo.antt =====
-- src/bin/myquic2-server: a binding that was put into the registry and taken out again.
use my_quic.Common.{
  ℕ, ◌+◌, ◌<◌, ◌^◌, ◌≡◌, refl, false, none, some, ◌∷◌, leb, if◌then◌else◌, arith, length,
  Bool-cases, inl, inr,
}
use my_quic.Common.Assoc.{lookup, erase}
use my_quic.Mqp.R2.{wire_id_server_owned}
use my_quic.Mqp.Flow.Binding.{FlowBinding}
use my_quic.Mqp.Flow.Registry.{
  ok, err, full, FlowRegistry, Bindings, fetch_add, fetch_sub, index_binding, unindex_binding, add,
  insert, remove,
}
use my_quic.Mqp.Flow.Registry.Tally.{owned-le-length}
use my_quic.Mqp.Flow.Registry.Invariant.{Consistent, add-Consistent, remove-Consistent}

-- The flows of `r` and no other, in the same order.
pub record SameFlows (r r' : FlowRegistry) : Type 0 where
  pub same_map : r'.map ≡ r.map
  pub same_count : r'.server_flow_count ≡ r.server_flow_count
  pub same_cap : r'.cap ≡ r.cap
  pub consistent : Consistent r'

pub same-SameFlows : {r : FlowRegistry} → Consistent r → SameFlows r r
same-SameFlows c = record { same_map = refl; same_count = refl; same_cap = refl; consistent = c }

pub lookup_head : (k : ℕ) (b : FlowBinding) (m : Bindings) → lookup k ((k, b) ∷ m) ≡ some b
unfolding lookup
lookup_head k b m = ground arith

erase_head : (k : ℕ) (b : FlowBinding) (m : Bindings) → erase k ((k, b) ∷ m) ≡ m
unfolding erase
erase_head k b m = ground arith

count_back : (n : ℕ) → n + 1 < 2 ^ 64 → fetch_sub (fetch_add n) ≡ n
count_back n h = omega arith

module _ (b : FlowBinding) (r : FlowRegistry) where
  pub insert_absent :
      lookup b.wire_id r.map ≡ none
      → insert b r ≡ (if leb r.cap (length r.map) then (err full, r) else (ok b, add b r))
  unfolding insert
  insert_absent e = rw (e, insert) refl

  add_small : r.cap < 2 ^ 64 → (add b r).cap < 2 ^ 64
  unfolding index_binding
  add_small h = h

  abbrev undone : FlowRegistry
  undone = (remove b.wire_id (add b r)).1

  pub remove_found : (remove b.wire_id (add b r)).0 ≡ some b
  unfolding remove index_binding
  remove_found = rw (undone, lookup_head b.wire_id b r.map, remove) refl

  undone_map : undone.map ≡ r.map
  unfolding remove index_binding unindex_binding
  undone_map = rw (undone, lookup_head b.wire_id b r.map, remove) (erase_head b.wire_id b r.map)

  undone_cap : undone.cap ≡ r.cap
  unfolding remove index_binding unindex_binding
  undone_cap = rw (undone, lookup_head b.wire_id b r.map, remove) refl

  undone_count : r.server_flow_count + 1 < 2 ^ 64 → undone.server_flow_count ≡ r.server_flow_count
  unfolding remove index_binding unindex_binding
  undone_count h =
      rw (undone, lookup_head b.wire_id b r.map, remove)
        (elim (Bool-cases (wire_id_server_owned b.wire_id)) [
          | inl e ↦ rw e (count_back r.server_flow_count h)
          | inr e ↦ rw e refl
        ])

  pub remove-SameFlows :
      Consistent r
      → r.cap < 2 ^ 64
      → lookup b.wire_id r.map ≡ none
      → leb r.cap (length r.map) ≡ false
      → SameFlows r undone
  remove-SameFlows c small absent room =
      let c' : Consistent (add b r) = add-Consistent r c small b absent (ground arith) in
      record {
        same_map = undone_map;
        same_count = undone_count (ground (arith, c.counted, owned-le-length r.map));
        same_cap = undone_cap;
        consistent = remove-Consistent (add b r) c' (add_small small) b.wire_id;
      }
