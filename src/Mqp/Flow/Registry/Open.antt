-- ===== src/Mqp/Flow/Registry/Open.antt =====
-- src/mqp/r2_flow.rs: `insert_new_for`, what it opens and when it refuses.
use my_quic.Common.{ℕ, ◌+◌, ◌≡◌, refl, Bool, true, false, leb, if◌then◌else◌, arith, length}
use my_quic.Mqp.Addr.{TargetAddrRef}
use my_quic.Mqp.Wire.{Wire, rev2, rev3}
use my_quic.Mqp.Wire.Ids.{id_room, next_id, alloc_wire_id_room, alloc_wire_id_spent}
use my_quic.Mqp.Flow.Binding.{FlowBinding, new_shared, new_cell, update}
use my_quic.Mqp.Flow.Registry.{err, full, World, install, install_id, fids_spent, insert_new_for}

-- Whether one more flow can be opened: the table and the ids have room.
abbrev pub has_room : Wire → World → Bool
has_room wire w =
    if leb w.reg.cap (length w.reg.map)
    then false
    else if leb (id_room wire) w.ids.next
    then false
    else true

-- The binding that `insert_new_for` makes, and the state around it.
abbrev pub fresh_binding : ℕ → TargetAddrRef → World → FlowBinding
fresh_binding session target w = (record {
  wire_id = next_id w.ids;
  session = session;
  target = target;
  cell = w.store.fresh;
})

abbrev pub spend : World → World
spend w = record w {
  ids = record w.ids { next = w.ids.next + 1 };
  store = record w.store {
    fresh = w.store.fresh + 1;
    cells = update w.store.cells w.store.fresh new_cell;
  };
}

module _ (session : ℕ) (target : TargetAddrRef) (w : World) where
  pub no_cap :
      (wire : Wire)
      → leb w.reg.cap (length w.reg.map) ≡ true
      → insert_new_for wire session target w ≡ (err full, w)
  unfolding insert_new_for
  no_cap wire e = rw (e, insert_new_for) refl

  pub no_id :
      (wire : Wire)
      → leb w.reg.cap (length w.reg.map) ≡ false
      → leb (id_room wire) w.ids.next ≡ true
      → insert_new_for wire session target w ≡ (err full, w)
  unfolding insert_new_for install_id
  no_id rev2 e f = rw (e, insert_new_for, alloc_wire_id_spent w.ids (ground arith)) refl
  no_id rev3 e f = rw (e, insert_new_for, f) refl

  not_spent : (wire : Wire) → leb (id_room wire) w.ids.next ≡ false → fids_spent wire w.ids ≡ false
  not_spent rev2 f = refl
  not_spent rev3 f = f

  pub room :
      (wire : Wire)
      → leb w.reg.cap (length w.reg.map) ≡ false
      → leb (id_room wire) w.ids.next ≡ false
      → insert_new_for wire session target w ≡ install (fresh_binding session target w) (spend w)
  unfolding insert_new_for install_id new_shared
  room wire e f =
      rw (e, insert_new_for, not_spent wire f, alloc_wire_id_room w.ids wire (ground arith)) refl
