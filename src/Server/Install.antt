-- ===== src/Server/Install.antt =====
-- src/bin/myquic2-server/reader.rs and accept.rs: `install_unsolicited`, `r2_install` and
-- `r2_remove_flow`, which keep a flow in the registry and in its session's own table alike. `rcu`
-- reads the table again when it publishes: a call takes the table that its bounds check saw and the
-- table that it publishes into.
pub mod Undo
pub mod Unsolicited
pub mod Opened
use my_quic.Common.{
  ℕ, Bool, true, false, ◌&&◌, Option, none, some, List, [], ◌∷◌, leb, if◌then◌else◌, length,
}
use my_quic.Mqp.Addr.{SocketAddr, TargetAddrRef, ip}
use my_quic.Mqp.Wire.{Wire, alloc_wire_id}
use my_quic.Mqp.Flow.Ids.{FlowIds}
use my_quic.Mqp.Flow.Binding.{
  FlowBinding, FlowCell, Store, cell_of, write, new_shared, mark_open, mark_closed, set_reply_src,
  set_resolved,
}
use my_quic.Mqp.Flow.Registry.{Result, ok, err, full, FlowRegistry, World}
use my_quic.Mqp.Flow.Registry
use my_quic.Mqp.Flow.Session
use my_quic.Mqp.Flow.Session.{SessionFlows, Slot, is_full, find_id}

-- What is returned, with the session's table and the connection as they are left.
pub record Installed {ℓ} (A : Type ℓ) : Type ℓ where
  pub answer : A
  pub flows : SessionFlows
  pub world : World

abbrev pub with_reg : World → FlowRegistry → World
with_reg w r = record w { reg = r }

abbrev pub close_cell : World → FlowBinding → World
close_cell w b = record w { store = write w.store b (mark_closed (cell_of w.store b)) }

-- A new binding whose atomics `start` sets before it is shared.
abbrev pub new_with : (FlowCell → FlowCell) → ℕ → ℕ → TargetAddrRef → World → FlowBinding × World
new_with start wire_id sess target w =
    let (b, h) = new_shared wire_id sess target w.store in
    (b, record w { store = write h b (start (cell_of h b)) })

-- `install_unsolicited`, after the registry took the binding.
unfoldable pub publish_unsolicited :
    ℕ → SessionFlows → World → FlowBinding → Installed (Option FlowBinding)
publish_unsolicited wire_id t w b =
    let (published, t') = Session.insert w.store b t in
    if published then record { answer = some b; flows = t'; world = w } else record {
      answer = none;
      flows = t';
      world = close_cell (with_reg w (Registry.remove wire_id w.reg).1) b;
    }

abbrev pub after_insert :
    ℕ → SessionFlows → World → Result FlowBinding × FlowRegistry → Installed (Option FlowBinding)
after_insert wire_id t w (err e, r) = record { answer = none; flows = t; world = with_reg w r }
after_insert wire_id t w (ok b, r) = publish_unsolicited wire_id t (with_reg w r) b

-- The source is the target, and it is bound.
abbrev pub start_unsolicited : SocketAddr → FlowCell → FlowCell
start_unsolicited src cell = mark_open (set_reply_src src cell)

unfoldable pub after_alloc :
    ℕ → SocketAddr → SessionFlows → World → Option ℕ × FlowIds → Installed (Option FlowBinding)
unfolding publish_unsolicited
after_alloc sess src t w (none, ids) = record {
  answer = none;
  flows = t;
  world = record w { ids = ids };
}
after_alloc sess src t w (some wire_id, ids) =
    let (b, w') = new_with (start_unsolicited src) wire_id sess (ip src) (record w { ids = ids }) in
    after_insert wire_id t w' (Registry.insert b w'.reg)

unfoldable pub install_unsolicited :
    Wire → ℕ → SocketAddr → SessionFlows → SessionFlows → World → Installed (Option FlowBinding)
unfolding after_alloc
install_unsolicited wire sess src seen t w =
    if is_full w.store seen
    then record { answer = none; flows = t; world = w }
    else if leb w.reg.cap (length w.reg.map)
    then record { answer = none; flows = t; world = w }
    else after_alloc sess src t w (alloc_wire_id w.ids wire)

-- `r2_install`, after the registry took the binding.
abbrev pub undo_open : World → Option FlowBinding × FlowRegistry → World
undo_open w (none, r) = with_reg w r
undo_open w (some removed, r) = close_cell (with_reg w r) removed

unfoldable pub publish_open :
    ℕ → SessionFlows → World → FlowBinding → Installed (Result FlowBinding)
publish_open wire_id t w b =
    let (published, t') = Session.insert w.store b t in
    if published then record { answer = ok b; flows = t'; world = w } else record {
      answer = err full;
      flows = t';
      world = undo_open w (Registry.remove wire_id w.reg);
    }

abbrev pub after_open :
    ℕ → SessionFlows → World → Result FlowBinding × FlowRegistry → Installed (Result FlowBinding)
after_open wire_id t w (err e, r) = record { answer = err e; flows = t; world = with_reg w r }
after_open wire_id t w (ok b, r) = publish_open wire_id t (with_reg w r) b

abbrev pub start_open : List SocketAddr → FlowCell → FlowCell
start_open [] cell = mark_open cell
start_open (a ∷ more) cell = mark_open (set_resolved (a ∷ more) cell)

abbrev pub refuses : Store → ℕ → SessionFlows → Bool
refuses h wire_id seen =
    is_full h seen && (elim (find_id wire_id seen) [ none ↦ true | some b ↦ false ])

-- `seen` is the table of the session's live entry, if there is one.
unfoldable pub r2_install :
    Option SessionFlows
    → SessionFlows
    → ℕ
    → ℕ
    → TargetAddrRef
    → List SocketAddr
    → World
    → Installed (Result FlowBinding)
unfolding publish_open
r2_install none t sess wire_id target resolved w = record {
  answer = err full;
  flows = t;
  world = w;
}
r2_install (some seen) t sess wire_id target resolved w =
    let (b, w') = new_with (start_open resolved) wire_id sess target w in
    if refuses w.store wire_id seen
    then record { answer = err full; flows = t; world = w }
    else after_open wire_id t w' (Registry.insert b w'.reg)

-- `tables` looks up the table of a session that is live, and the caller stores the one it gets back.
unfoldable pub r2_remove_flow :
    ℕ → (ℕ → Option SessionFlows) → World → Option FlowBinding × Option SessionFlows × World
r2_remove_flow wire_id tables w = elim (Registry.remove wire_id w.reg).0 [
  | none ↦ (none, none, w)
  | some b ↦ (
    some b,
    elim (tables b.session) [ none ↦ none | some t ↦ some (Session.remove wire_id t).1 ],
    close_cell (with_reg w (Registry.remove wire_id w.reg).1) b,
  )
]
