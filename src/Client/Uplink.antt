-- ===== src/Client/Uplink.antt =====
-- src/bin/myquic2-client/rev2.rs: `ensure_binding`, which finds or opens the flow of an association's
-- next payload, and `UplinkFlows::sync`. The staged payloads of `UplinkFlows` are left out.
pub mod Table
pub mod Ensure
use my_quic.Common.{
  ℕ, Bool, true, false, not, ◌&&◌, Option, none, some, List, [], ◌∷◌, ◌==◌, if◌then◌else◌,
}
use my_quic.Mqp.Addr.{TargetAddrRef}
use my_quic.Mqp.Wire.{Wire}
use my_quic.Mqp.Flow.Binding.{
  FlowBinding, Store, cell_of, write, is_open, is_closed, mark_closed, target_eq,
}
use my_quic.Mqp.Flow.Registry.{
  Result, ok, err, World, find_server_flow, has_capacity, insert_new_for,
}
use my_quic.Mqp.Flow.Registry
use my_quic.Mqp.Flow.Session
use my_quic.Mqp.Flow.Session.{SessionFlows, is_full, Slot}
use my_quic.Client.Rejects.{Rejected, is_rejected}

-- `ConnRev2`: the connection's generation, wire, tables and rejection cache.
pub record ConnRev2 : Type 0 where
  pub epoch : ℕ
  pub wire : Wire
  pub world : World
  pub rejected : Rejected

pub record UplinkFlows : Type 0 where
  pub flows : SessionFlows
  pub epoch : ℕ
  -- A `SESS_CLOSE` was raised and not yet taken.
  pub closed : Bool
  pub last : Option (TargetAddrRef × FlowBinding)

abbrev pub new : UplinkFlows
new = record { flows = Session.new; epoch = 0; closed = false; last = none }

-- What `ensure_binding` returns, with the states it leaves.
pub record Ensured : Type 0 where
  pub answer : Option FlowBinding
  pub up : UplinkFlows
  pub conn : ConnRev2

abbrev pub binding_closed : Store → FlowBinding → Bool
binding_closed h b = is_closed (cell_of h b).state

abbrev pub unregister : ℕ → ConnRev2 → ConnRev2
unregister wire_id c = record c {
  world = record c.world { reg = (Registry.remove wire_id c.world.reg).1 };
}

-- `return None`, and the answer with the memo.
abbrev pub inline : UplinkFlows → ConnRev2 → Ensured
inline u c = record { answer = none; up = u; conn = c }

abbrev pub answer_with : TargetAddrRef → FlowBinding → UplinkFlows → ConnRev2 → Ensured
answer_with a b u c = record { answer = some b; up = record u { last = some (a, b) }; conn = c }

abbrev pub memo_hit :
    Store → ℕ → TargetAddrRef → Option (TargetAddrRef × FlowBinding) → Option FlowBinding
memo_hit h s a none = none
memo_hit h s a (some (t, b)) =
    if target_eq t a && (b.session == s && not (binding_closed h b)) then some b else none

-- After `insert_new_for`.
unfoldable pub published :
    TargetAddrRef → UplinkFlows → ConnRev2 → Result FlowBinding × World → Ensured
published a u c (err e, w) = inline u (record c { world = w })
published a u c (ok b, w) =
    let (inserted, flows) = Session.insert w.store b u.flows in
    if inserted
    then answer_with a b (record u { flows = flows }) (record c { world = w })
    else inline (record u { flows = flows }) (unregister b.wire_id (record c { world = w }))

unfoldable pub open_fresh : ℕ → TargetAddrRef → UplinkFlows → ConnRev2 → Ensured
unfolding published
open_fresh s a u c =
    if has_capacity c.world.reg
    then published a u c (insert_new_for c.wire s a c.world)
    else inline u c

-- A flow that the server owns for the target is used again, if it is open.
unfoldable pub reuse : ℕ → TargetAddrRef → UplinkFlows → ConnRev2 → Slot → Ensured
unfolding open_fresh
reuse s a u c none = open_fresh s a u c
reuse s a u c (some b) =
    let (inserted, flows) = Session.insert c.world.store b u.flows in
    if is_open (cell_of c.world.store b)
    then (if inserted
        then answer_with a b (record u { flows = flows }) c
        else inline (record u { flows = flows }) c)
    else if binding_closed c.world.store b
    then open_fresh s a u (unregister b.wire_id c)
    else open_fresh s a u c

-- From the full-table test on.
unfoldable pub open_flow : ℕ → ℕ → TargetAddrRef → UplinkFlows → ConnRev2 → Ensured
unfolding reuse
open_flow now s a u c =
    let (hit, rejected) = is_rejected a now c.rejected c.rejected in
    let c' : ConnRev2 = record c { rejected = rejected } in
    if is_full c.world.store u.flows
    then inline u c
    else if hit
    then inline u c'
    else reuse s a u c' (find_server_flow s a c.world.reg)

-- After the memo missed.
unfoldable pub search_table : ℕ → ℕ → TargetAddrRef → UplinkFlows → ConnRev2 → Slot → Ensured
unfolding open_flow
search_table now s a u c none = open_flow now s a u c
search_table now s a u c (some b) =
    if binding_closed c.world.store b
    then (open_flow now s a (record u { flows = (Session.remove b.wire_id u.flows).1 })
        (unregister b.wire_id c))
    else answer_with a b u c

unfoldable pub after_memo :
    ℕ → ℕ → TargetAddrRef → UplinkFlows → ConnRev2 → Option FlowBinding → Ensured
unfolding search_table
after_memo now s a u c (some b) = record { answer = some b; up = u; conn = c }
after_memo now s a u c none =
    search_table now s a (record u { last = none }) c (Session.find a u.flows)

unfoldable pub ensure_binding : ℕ → ℕ → TargetAddrRef → UplinkFlows → ConnRev2 → Ensured
unfolding after_memo
ensure_binding now s a u c = after_memo now s a u c (memo_hit c.world.store s a u.last)

-- `mark_closed` and `registry.remove` on each binding of the table.
unfoldable pub close_slots : List Slot → World → World
close_slots [] w = w
close_slots (none ∷ es) w = close_slots es w
close_slots (some b ∷ es) w = close_slots es (record w {
  reg = (Registry.remove b.wire_id w.reg).1;
  store = write w.store b (mark_closed (cell_of w.store b));
})

unfoldable pub sync : UplinkFlows → ConnRev2 → UplinkFlows × ConnRev2
unfolding close_slots
sync u c =
    let u' : UplinkFlows = record u { closed = false } in
    if not (u.epoch == c.epoch)
    then (record u' { flows = Session.new; epoch = c.epoch; last = none }, c)
    else if u.closed
    then (
      record u' { flows = Session.new; last = none },
      record c { world = close_slots u.flows.entries c.world },
    )
    else (u', c)
