-- ===== src/Mqp/Wire.antt =====
-- src/mqp/wire.rs: the wire revisions, and the map between internal wire ids and flow ids.
pub mod Ids
use my_quic.Common.{
  ℕ, ◌+◌, ◌-◌, ◌*◌, ◌/◌, ◌%◌, Bool, true, false, ◌&&◌, ◌||◌, Option, none, some, leb, ltb, ◌==◌,
  if◌then◌else◌,
}
use my_quic.Mqp.R3.Fid.{client_fid_max, server_fid_base, fid_max, fids_per_owner}
use my_quic.Mqp.Flow.Ids.{FlowIds, alloc}

pub data Wire : Type 0 where
  rev2 rev3 : Wire

unfoldable pub rev : Wire → ℕ
rev rev2 = 2
rev rev3 = 3

unfoldable pub from_rev : ℕ → Option Wire
from_rev r = if r == 2 then some rev2 else if r == 3 then some rev3 else none

abbrev pub max_r3_local_id : ℕ
max_r3_local_id = fids_per_owner

unfoldable pub fid_for : ℕ → Option ℕ
fid_for wire_id =
    if wire_id == 0
    then none
    else if wire_id / 2 == 0 || ltb max_r3_local_id (wire_id / 2)
    then none
    else some ((if wire_id % 2 == 0 then 0 else server_fid_base) + (wire_id / 2 - 1))

-- `(local << 1) | owner`: the low bit is clear after the shift.
unfoldable pub wire_id_for_fid : ℕ → Option ℕ
wire_id_for_fid fid =
    if leb fid client_fid_max
    then some ((fid + 1) * 2 + 0)
    else if leb server_fid_base fid && leb fid fid_max
    then some ((fid - server_fid_base + 1) * 2 + 1)
    else none

-- The id is spent also where it is refused.
unfoldable pub alloc_wire_id : FlowIds → Wire → Option ℕ × FlowIds
unfolding alloc fid_for
alloc_wire_id ids wire =
    let (id, ids') = alloc ids in
    elim id [
      | none ↦ (none, ids')
      | some w ↦ (
        elim wire [ rev2 ↦ some w | rev3 ↦ elim (fid_for w) [ none ↦ none | some fid ↦ some w ] ],
        ids',
      )
    ]
