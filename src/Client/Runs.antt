-- ===== src/Client/Runs.antt =====
-- The client's flow state on concrete connections.
use my_quic.Common.{◌-◌, ◌≡◌, refl, false, not, some, [], ◌∷◌, arith, leb}
use my_quic.Common.Assoc.{lookup}
use my_quic.Mqp.Addr.{TargetAddrRef, v4, ip}
use my_quic.Mqp.Wire.{rev3, alloc_wire_id}
use my_quic.Mqp.Flow.Binding.{Store, new_cell, new_shared}
use my_quic.Mqp.Flow.Registry.{World, insert_new_for, install_id, install}
use my_quic.Mqp.Flow.Registry
use my_quic.Mqp.Flow.Registry.Steps
use my_quic.Mqp.Flow.Registry.Steps.{connect, Sound, open_flow}
use my_quic.Mqp.Flow.Registry.Sound.{Reach-Sound}
use my_quic.Mqp.Flow.Session
use my_quic.Mqp.Flow.Ids
use my_quic.Client.Rejects.{reject_table_full, reject_ttl_ms, note_rejected, is_rejected}
use my_quic.Client.Rejects.Cache.{IsCache, copies, note_rejected_lem}
use my_quic.Client.Uplink.{ConnRev2, new, ensure_binding}
use my_quic.Client.Uplink.Table.{new-Owned}
use my_quic.Client.Uplink.Ensure.{IsServed, ensure_binding-IsServed}

abbrev target : TargetAddrRef
target = ip (v4 (10 ∷ 0 ∷ 0 ∷ 1 ∷ []) 53)

abbrev other : TargetAddrRef
other = ip (v4 (10 ∷ 0 ∷ 0 ∷ 2 ∷ []) 53)

abbrev no_cells : Store
no_cells = record { fresh = 0; cells = λ p. new_cell }

abbrev idle_world : World
idle_world = connect 4096 false no_cells

-- Another association has a flow.
abbrev conn : ConnRev2
conn = record {
  epoch = 1;
  wire = rev3;
  world = (insert_new_for rev3 8 other idle_world).1;
  rejected = [];
}

conn-Sound : Sound conn.world
conn-Sound =
    Reach-Sound 4096 false no_cells (omega arith) (Steps.next Steps.here (open_flow rev3 8 other))

ensure_binding-IsServed_example :
    IsServed 7 target conn.world.ids (ensure_binding 5 7 target new conn)
ensure_binding-IsServed_example =
    ensure_binding-IsServed 5 7 target new conn conn-Sound (new-Owned 7 conn.world.store.fresh)

-- The first flow of a connection has wire id 2.
abbrev first_conn : ConnRev2
first_conn = record { epoch = 1; wire = rev3; world = idle_world; rejected = [] }

first_flow :
    (ensure_binding 5 7 target new first_conn).answer
    ≡ some (record { wire_id = 2; session = 7; target = target; cell = 0 })
unfolding ensure_binding Registry.new Session.find Session.is_full is_rejected
    Registry.find_server_flow insert_new_for install_id install alloc_wire_id new_shared
    Session.insert lookup Registry.index_binding Ids.new
first_flow = refl

no_rejects : IsCache []
unfolding copies
no_rejects = record { unique = λ a. omega arith; within = omega arith }

note_rejected_lem_example :
    IsCache (note_rejected target reject_table_full 5000 [])
    × ((is_rejected target 5999
          (note_rejected target reject_table_full 5000 [])
          (note_rejected target reject_table_full 5000 [])).0
        ≡ not (leb (reject_ttl_ms reject_table_full) (5999 - 5000)))
note_rejected_lem_example = note_rejected_lem target reject_table_full 5000 5999 [] no_rejects
