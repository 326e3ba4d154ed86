-- ===== src/Mqp/Flow/Ids.antt =====
-- src/mqp/r2_flow.rs: the sender's allocator of wire ids.
use my_quic.Common.{ℕ, ◌+◌, Bool, Option, none, leb, if◌then◌else◌}
use my_quic.Mqp.R2.{max_local, make_wire_id}

pub record FlowIds : Type 0 where
  pub next : ℕ
  pub server_owned : Bool

unfoldable pub new : Bool → FlowIds
new server_owned = record { next = 0; server_owned = server_owned }

-- `try_update` is one atomic step: the counter moves unless it is at its limit.
unfoldable pub alloc : FlowIds → Option ℕ × FlowIds
unfolding make_wire_id
alloc ids =
    if leb max_local ids.next
    then (none, ids)
    else (make_wire_id (ids.next + 1) ids.server_owned, record ids { next = ids.next + 1 })

abbrev pub allocated : FlowIds → ℕ
allocated ids = ids.next
