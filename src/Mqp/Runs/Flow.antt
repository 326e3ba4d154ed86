-- ===== src/Mqp/Runs/Flow.antt =====
-- Flows on concrete states: wire ids, bindings, the registry and a session's table.
use my_quic.Common.{
  ◌≡◌, ◌↔◌, refl, ◌≤◌, ◌+◌, ◌==◌, List, true, false, none, some, [], ◌∷◌, arith, if◌then◌else◌, leb,
}
use my_quic.Mqp.Addr.{SocketAddr, v4, ip}
use my_quic.Mqp.R2.{wire_id_server_owned}
use my_quic.Mqp.R3.Fid.{server_fid_base}
use my_quic.Mqp.Wire.{rev3, fid_for, wire_id_for_fid}
use my_quic.Mqp.Wire.Ids.{wire_id_for_fid_iff}
use my_quic.Mqp.Flow.Binding.{FlowBinding, Store, closed, new_cell, socket_eq}
use my_quic.Mqp.Flow.Window.{
  Call, close_call, rearm_call, idle, slot_read, slot_left, slot_last, slot_swap, slot_call,
  returned, Threads, begin, access, Reach, here, next, is_free, at, is_pending, one_if, grants,
  granted,
}
use my_quic.Mqp.Flow.Window.Close.{Reach-granted}
use my_quic.Mqp.Flow.Window.Solo.{solo, solo_ends}
use my_quic.Mqp.Flow.Window.Promise.{perform, promise, perform-promise}
use my_quic.Mqp.Flow.Registry.{ok, err, full, World, add, insert_new_for}
use my_quic.Mqp.Flow.Registry.Purge.{remove_session, remove_sessions}
use my_quic.Mqp.Flow.Registry.Tally.{of_session}
use my_quic.Mqp.Flow.Registry.Open.{has_room, fresh_binding, spend}
use my_quic.Mqp.Flow.Registry.Steps
use my_quic.Mqp.Flow.Registry.Steps.{Sound, connect, open_flow, close_session}
use my_quic.Mqp.Flow.Registry.Sound.{Reach-Sound, insert_new_for_lem}
use my_quic.Mqp.Flow.Registry.Reap.{Reaped, remove_session-Reaped}
use my_quic.Mqp.Flow.Registry.Batch.{each, remove_sessions-each}
use my_quic.Mqp.CtlStream
use my_quic.Mqp.CtlStream.{allow}
use my_quic.Mqp.Flow.Handshake.{ctl_max_per_sec}
use my_quic.Mqp.Flow.Handshake
use my_quic.Mqp.Flow.Handshake.Budget.{
  Event, hello, frame, answers, budget_answers, greeted, last_caps, ctl_allowed-allow,
}
use my_quic.Mqp.Flow.Session.{
  SessionFlows, exact, find_binding, names_source, conclude, match_source,
}
use my_quic.Mqp.Flow.Session.Source.{is_confirmed, is_candidate, match_source-scans}

abbrev source : SocketAddr
source = v4 (10 ∷ 0 ∷ 0 ∷ 1 ∷ []) 53

abbrev no_cells : Store
no_cells = record { fresh = 0; cells = λ p. new_cell }

-- A client's connection, and the same after a flow of session 7 was opened.
abbrev idle_world : World
idle_world = connect 4096 false no_cells

abbrev busy : World
busy = (insert_new_for rev3 7 (ip source) idle_world).1

busy_opened : Steps.Reach idle_world busy
busy_opened = Steps.next Steps.here (open_flow rev3 7 (ip source))

busy-Sound : Sound busy
busy-Sound = Reach-Sound 4096 false no_cells (omega arith) busy_opened

abbrev left : World
left = record busy {
  reg = (remove_session 7 busy.reg busy.store).1;
  store = (remove_session 7 busy.reg busy.store).2;
}

Reach-Sound_example : Sound left
Reach-Sound_example =
    Reach-Sound 4096 false no_cells (omega arith) (Steps.next busy_opened (close_session 7))

remove_session-Reaped_example :
    ((remove_session 7 busy.reg busy.store).0 ≡ of_session 7 busy.reg.map)
    × Reaped 7 busy.reg busy.store
        (remove_session 7 busy.reg busy.store).1
        (remove_session 7 busy.reg busy.store).2
remove_session-Reaped_example =
    remove_session-Reaped 7 busy.reg busy.store busy-Sound.consistent busy-Sound.small

insert_new_for_lem_example : insert_new_for rev3 8 (ip source) busy ≡ (
    if has_room rev3 busy
    then (
      ok (fresh_binding 8 (ip source) busy),
      record (spend busy) { reg = add (fresh_binding 8 (ip source) busy) busy.reg },
    )
    else (err full, busy))
insert_new_for_lem_example = insert_new_for_lem rev3 8 (ip source) busy busy-Sound

remove_sessions-each_example :
    remove_sessions (8 ∷ 7 ∷ []) busy.reg busy.store ≡ each (8 ∷ 7 ∷ []) busy.reg busy.store
remove_sessions-each_example = remove_sessions-each (8 ∷ 7 ∷ []) busy.reg busy.store

wire_id_for_fid_iff_example :
    (wire_id_for_fid 0x2000 ≡ some 3)
    ↔ ((fid_for 3 ≡ some 0x2000) × (wire_id_server_owned 3 ≡ leb server_fid_base 0x2000))
wire_id_for_fid_iff_example = wire_id_for_fid_iff 3 0x2000 (omega arith)

-- Two threads that share a binding, which was closed while thread 1 was in `take_context_slot`. That
-- call is granted a slot; thread 0 then asks for one.
abbrev shared : Threads
shared = record {
  cell = record new_cell { state = closed };
  pc = λ i. if i == 1 then slot_left else idle;
}

abbrev taken : Threads
taken = record { cell = shared.cell; pc = at shared.pc 1 (slot_swap 2) }

abbrev paid : Threads
paid = record { cell = record shared.cell { context_left = 1 }; pc = at taken.pc 1 (returned true) }

abbrev asking : Threads
asking = record paid { pc = at paid.pc 0 slot_read }

abbrev run : Reach shared asking
unfolding my_quic.Mqp.Flow.Window.step
run = next (next (next here (access 1)) (access 1)) (begin 0 slot_call refl)

Reach-granted_example :
    (asking.cell.state ≡ closed)
    × (granted 1 run + one_if (is_pending (asking.pc 1)) ≤ one_if (is_pending (shared.pc 1)))
unfolding my_quic.Mqp.Flow.Window.step
Reach-granted_example = Reach-granted run 1 refl

pays_once : granted 1 run ≡ 1
unfolding grants my_quic.Mqp.Flow.Window.step
pays_once = refl

solo_ends_example : is_free (solo 5 (shared.cell, slot_last)).1 ≡ true
solo_ends_example = solo_ends slot_last shared.cell

-- Two frames carry the context, the third does not; once re-armed, one does again until the close.
abbrev calls : List Call
calls = slot_call ∷ slot_call ∷ slot_call ∷ rearm_call ∷ slot_call ∷ close_call ∷ slot_call ∷ []

perform-promise_example :
    ((perform calls new_cell).0
      ≡ returned true
        ∷ returned true
        ∷ returned false
        ∷ idle
        ∷ returned true
        ∷ idle
        ∷ returned false
        ∷ [])
    × ((perform calls new_cell).1.state ≡ closed)
unfolding promise
perform-promise_example = perform-promise calls

-- One flow, to the source.
abbrev flow : FlowBinding
flow = record { wire_id = 2; session = 7; target = ip source; cell = 0 }

abbrev table : SessionFlows
table = record { entries = none ∷ some flow ∷ [] }

match_source-scans_example :
    match_source no_cells source table
    ≡ (elim (find_binding (is_confirmed no_cells source) table.entries) [
      | some b ↦ some (exact b)
      | none ↦
          conclude
            (find_binding (names_source source) table.entries)
            (find_binding (is_candidate no_cells source) table.entries)
    ])
match_source-scans_example = match_source-scans no_cells source table

matched : match_source no_cells source table ≡ some (exact flow)
unfolding match_source socket_eq
matched = refl

abbrev events : List Event
events = frame 10 ∷ hello ∷ frame 1500 ∷ []

ctl_allowed-allow_example :
    ((answers events Handshake.new).0 ≡ true ∷ true ∷ [])
    × ((answers events Handshake.new).1.ctl_rate.count ≤ ctl_max_per_sec)
    × ((answers events Handshake.new).1.hello_seen ≡ true)
    × ((answers events Handshake.new).1.caps ≡ none)
unfolding budget_answers greeted last_caps CtlStream.new allow
ctl_allowed-allow_example = ctl_allowed-allow events
