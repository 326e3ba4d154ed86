-- ===== src/Mqp/R2.antt =====
-- src/mqp/r2.rs: the wire ids of revision 2, a sender-local id over an owner bit.
use my_quic.Common.{
  ℕ, ◌+◌, ◌*◌, ◌/◌, ◌%◌, Bool, ◌||◌, Option, none, some, ltb, ◌==◌, ◌!=◌, if◌then◌else◌,
}

-- `u32::MAX >> 1`
abbrev pub max_local : ℕ
max_local = 2147483647

-- `(local_id << 1) | owner`: the low bit is clear after the shift, so the owner adds to it.
unfoldable pub make_wire_id : ℕ → Bool → Option ℕ
make_wire_id local_id server_owned =
    if local_id == 0 || ltb max_local local_id
    then none
    else some (local_id * 2 + (if server_owned then 1 else 0))

abbrev pub wire_id_local : ℕ → ℕ
wire_id_local id = id / 2

abbrev pub wire_id_server_owned : ℕ → Bool
wire_id_server_owned id = id % 2 != 0
