-- ===== src/Mqp/Flow/Registry/Steps.antt =====
-- src/mqp/r2_flow.rs: a connection's registry, id allocator and atomics under any run of operations.
use my_quic.Common.{
  ℕ, ◌/◌, ◌<◌, ◌^◌, ◌≡◌, Bool, true, false, not, ◌&&◌, ltb, Option, none, some, List, leb,
  if◌then◌else◌, All,
}
use my_quic.Mqp.Addr.{TargetAddrRef}
use my_quic.Mqp.R2.{wire_id_server_owned}
use my_quic.Mqp.Wire.{Wire, alloc_wire_id}
use my_quic.Mqp.Flow.Ids.{FlowIds}
use my_quic.Mqp.Flow.Ids
use my_quic.Mqp.Flow.Binding.{FlowCell, Store, update, new_shared}
use my_quic.Mqp.Flow.Registry.{World, new, insert, insert_new_for, remove, clear, Bindings}
use my_quic.Mqp.Flow.Registry.Purge.{remove_session, remove_sessions}
use my_quic.Mqp.Flow.Registry.Invariant.{Consistent}

-- Whether an id has the owner of an allocator.
abbrev pub is_own : FlowIds → ℕ → Bool
is_own ids id = if ids.server_owned then wire_id_server_owned id else not (wire_id_server_owned id)

-- Whether the allocator is past an id, which is so for every id of the other owner.
abbrev pub is_spent : FlowIds → ℕ → Bool
is_spent ids id = if is_own ids id then leb (id / 2) ids.next else true

-- Every id in the table is spent, and every binding's atomics are below the place `n`.
abbrev pub Spent : FlowIds → ℕ → Bindings → Type 0
Spent ids n = All (λ e. (is_spent ids e.0 && ltb e.1.cell n) ≡ true)

pub record Sound (w : World) : Type 0 where
  pub consistent : Consistent w.reg
  pub small : w.reg.cap < 2 ^ 64
  pub spent : Spent w.ids w.store.fresh w.reg.map

-- The peer opens a flow under an id of its own.
abbrev pub accept : ℕ → ℕ → TargetAddrRef → World → World
accept id session target w =
    let (b, h) = new_shared id session target w.store in
    record w { reg = (insert b w.reg).1; store = h }

-- The server opens a flow of its own, as `install_unsolicited` does: the id is allocated before the
-- registry is locked for `insert`.
abbrev pub open_own_with : ℕ → TargetAddrRef → World → Option ℕ × FlowIds → World
open_own_with session target w (none, ids) = record w { ids = ids }
open_own_with session target w (some id, ids) = accept id session target (record w { ids = ids })

abbrev pub open_own : Wire → ℕ → TargetAddrRef → World → World
open_own wire session target w = open_own_with session target w (alloc_wire_id w.ids wire)

pub data Step (w : World) : World → Type 0 where
  open_flow :
      (wire : Wire) (session : ℕ) (target : TargetAddrRef)
      → Step w (insert_new_for wire session target w).1
  open_own_flow :
      (wire : Wire) (session : ℕ) (target : TargetAddrRef) → Step w (open_own wire session target w)
  accept_flow :
      (id session : ℕ) (target : TargetAddrRef)
      → is_own w.ids id ≡ false
      → Step w (accept id session target w)
  close_flow : (id : ℕ) → Step w (record w { reg = (remove id w.reg).1 })
  close_session :
      (s : ℕ)
      → Step w (record w {
        reg = (remove_session s w.reg w.store).1;
        store = (remove_session s w.reg w.store).2;
      })
  close_sessions :
      (ss : List ℕ)
      → Step w (record w {
        reg = (remove_sessions ss w.reg w.store).1;
        store = (remove_sessions ss w.reg w.store).2;
      })
  close_all : Step w (record w { reg = (clear w.reg).1 })
  -- A method of a binding writes its atomics.
  touch :
      (p : ℕ) (c : FlowCell)
      → Step w (record w { store = record w.store { cells = update w.store.cells p c } })

pub data Reach (v : World) : World → Type 0 where
  here : Reach v v
  next : {w w' : World} → Reach v w → Step w w' → Reach v w'

-- A connection at its start.
abbrev pub connect : ℕ → Bool → Store → World
connect cap server_owned h = record { reg = new cap; ids = Ids.new server_owned; store = h }
