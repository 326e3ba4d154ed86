-- ===== src/Mqp/Wire/Ids.antt =====
-- src/mqp/wire.rs: the two id maps are inverse, and what the allocator hands out on each revision.
use my_quic.Common.{ℕ, ◌+◌, ◌*◌, ◌<◌, ◌≤◌, ◌≡◌, ◌↔◌, none, some, arith, leb, if◌then◌else◌}
use my_quic.Common.{◌⊎◌, inl, inr, Bool-cases}
use my_quic.Mqp.R3.Fid.{server_fid_base}
use my_quic.Mqp.R2.{max_local, wire_id_server_owned}
use my_quic.Mqp.Flow.Ids.{FlowIds}
use my_quic.Mqp.Wire.{Wire, rev2, rev3, max_r3_local_id, fid_for, wire_id_for_fid, alloc_wire_id}

-- For every number `w` and every 16-bit flow id: `wire_id_for_fid` takes the flow id to the wire id
-- `w` exactly when `fid_for` takes `w` to the flow id and the owner bit of `w` is set exactly for the
-- ids of the server's half.
pub wire_id_for_fid_iff :
    (w fid : ℕ)
    → fid < 65536
    → (wire_id_for_fid fid ≡ some w)
      ↔ ((fid_for w ≡ some fid) × (wire_id_server_owned w ≡ leb server_fid_base fid))
unfolding fid_for wire_id_for_fid
wire_id_for_fid_iff w fid h = (λ e. ground arith, λ e. ground arith)

-- A wire id whose flow id is sent comes back, so no two live wire ids share a flow id.
pub fid_for-wire_id : (w : ℕ) {fid : ℕ} → fid_for w ≡ some fid → wire_id_for_fid fid ≡ some w
unfolding fid_for wire_id_for_fid
fid_for-wire_id w e = ground arith

-- The number of ids a sender may allocate.
abbrev pub id_room : Wire → ℕ
id_room rev2 = max_local
id_room rev3 = max_r3_local_id

abbrev pub next_id : FlowIds → ℕ
next_id ids = (ids.next + 1) * 2 + (if ids.server_owned then 1 else 0)

pub alloc_wire_id_room :
    (ids : FlowIds) (wire : Wire)
    → ids.next < id_room wire
    → alloc_wire_id ids wire ≡ (some (next_id ids), record ids { next = ids.next + 1 })
unfolding alloc_wire_id
alloc_wire_id_room ids rev2 h = ground arith
alloc_wire_id_room ids rev3 h = ground arith

pub alloc_wire_id_spent :
    (ids : FlowIds) → max_local ≤ ids.next → alloc_wire_id ids rev2 ≡ (none, ids)
unfolding alloc_wire_id
alloc_wire_id_spent ids h = ground arith

alloc_spent_rev3 : (ids : FlowIds) → max_local ≤ ids.next → alloc_wire_id ids rev3 ≡ (none, ids)
unfolding alloc_wire_id
alloc_spent_rev3 ids h = ground arith

-- The id is refused, but spent.
pub alloc_wire_id_unmapped :
    (ids : FlowIds)
    → max_r3_local_id ≤ ids.next
    → ids.next < max_local
    → alloc_wire_id ids rev3 ≡ (none, record ids { next = ids.next + 1 })
unfolding alloc_wire_id
alloc_wire_id_unmapped ids g h = ground arith

no_room_cases :
    (ids : FlowIds) (wire : Wire)
    → id_room wire ≤ ids.next
    → (alloc_wire_id ids wire ≡ (none, record ids { next = ids.next + 1 }))
      ⊎ (alloc_wire_id ids wire ≡ (none, ids))
no_room_cases ids rev2 h = inr (alloc_wire_id_spent ids h)
no_room_cases ids rev3 h = elim (Bool-cases (leb max_local ids.next)) [
  | inl e ↦ inr (alloc_spent_rev3 ids (ground arith))
  | inr e ↦ inl (alloc_wire_id_unmapped ids h (ground arith))
]

pub alloc_wire_id_cases :
    (ids : FlowIds) (wire : Wire)
    → (alloc_wire_id ids wire ≡ (some (next_id ids), record ids { next = ids.next + 1 }))
      ⊎ ((alloc_wire_id ids wire ≡ (none, record ids { next = ids.next + 1 }))
          ⊎ (alloc_wire_id ids wire ≡ (none, ids)))
alloc_wire_id_cases ids wire = elim (Bool-cases (leb (id_room wire) ids.next)) [
  | inr e ↦ inl (alloc_wire_id_room ids wire (ground arith))
  | inl e ↦ inr (no_room_cases ids wire (ground arith))
]
