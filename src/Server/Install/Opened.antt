-- ===== src/Server/Install/Opened.antt =====
-- src/bin/myquic2-server/accept.rs: `r2_install` leaves a flow in both tables or in neither.
use my_quic.Common.{
  ℕ, ◌<◌, ◌^◌, ◌≡◌, refl, ap, subst, false, Option, none, some, List, leb, arith, length,
  Bool-cases, inl, inr,
}
use my_quic.Common.Assoc.{lookup}
use my_quic.Mqp.Addr.{SocketAddr, TargetAddrRef}
use my_quic.Mqp.Flow.Binding.{FlowBinding, FlowCell, cell_of, new_shared, new_cell}
use my_quic.Mqp.Flow.Registry.{
  Result, ok, err, full, FlowRegistry, World, add, insert, index_binding,
}
use my_quic.Mqp.Flow.Registry
use my_quic.Mqp.Flow.Registry.Invariant.{Consistent, add-Consistent}
use my_quic.Mqp.Flow.Session.{SessionFlows, find_id}
use my_quic.Mqp.Flow.Session.Slots.{Listed, insert_outcome}
use my_quic.Server.Install.{
  Installed, with_reg, close_cell, new_with, start_open, refuses, after_open, publish_open,
  undo_open, r2_install,
}
use my_quic.Server.Install.Undo.{
  SameFlows, same-SameFlows, lookup_head, insert_absent, remove_found, remove-SameFlows,
}

-- The flow is in the registry and its atomics are `cell`. The session's table `t` has it under its id,
-- or already had a binding under that id and stays as it was.
pub record InBoth (cell : FlowCell) (w : World) (t t' : SessionFlows) (b : FlowBinding)
    : Type 0 where
  pub registered : lookup b.wire_id w.reg.map ≡ some b
  pub listed : Listed b t (find_id b.wire_id t) t'
  pub atomics : cell_of w.store b ≡ cell
  pub consistent : Consistent w.reg

undo_found :
    (w : World) (p : Option FlowBinding × FlowRegistry) {b : FlowBinding}
    → p.0 ≡ some b
    → undo_open w p ≡ close_cell (with_reg w p.1) b
undo_found w (o, r) e = ap (λ q. undo_open w (q, r)) e

-- What a refusal and what an installed flow leave, where `r` was the registry and `t` the table.
abbrev pub Outcome :
    FlowRegistry
    → SessionFlows
    → ℕ
    → ℕ
    → TargetAddrRef
    → FlowCell
    → SessionFlows
    → World
    → Result FlowBinding
    → Type 0
Outcome r t wire_id sess target cell t' w' (err e) = SameFlows r w'.reg × (t' ≡ t)
Outcome r t wire_id sess target cell t' w' (ok b) =
    (b.wire_id ≡ wire_id) × (b.session ≡ sess) × (b.target ≡ target) × InBoth cell w' t t' b

module _ (b : FlowBinding) (t : SessionFlows) (w : World) (c : Consistent w.reg)
    (small : w.reg.cap < 2 ^ 64) (absent : lookup b.wire_id w.reg.map ≡ none) where
  abbrev pub added : World
  added = with_reg w (add b w.reg)

  pub added_lookup : lookup b.wire_id added.reg.map ≡ some b
  unfolding index_binding
  added_lookup = lookup_head b.wire_id b w.reg.map

  abbrev Settled : Installed (Result FlowBinding) → Type 0
  Settled r =
      Outcome w.reg t b.wire_id b.session b.target (cell_of w.store b) r.flows r.world r.answer

  published : leb w.reg.cap (length w.reg.map) ≡ false → Settled (publish_open b.wire_id t added b)
  unfolding publish_open
  published room = elim (insert_outcome w.store b t) [
    | inl (e, full', none_there) ↦
        rw (e, publish_open)
          (rw (undo_found added (Registry.remove b.wire_id added.reg) (remove_found b w.reg))
            (remove-SameFlows b w.reg c small absent room, refl))
    | inr (e, there) ↦
        rw (e, publish_open)
          (
            refl,
            refl,
            refl,
            record {
              registered = added_lookup;
              listed = there;
              atomics = refl;
              consistent = add-Consistent w.reg c small b absent (ground arith);
            },
          )
  ]

  inserted : Settled (after_open b.wire_id t w (insert b w.reg))
  inserted = elim (Bool-cases (leb w.reg.cap (length w.reg.map))) [
    | inl e ↦ rw (insert_absent b w.reg absent, e) (same-SameFlows c, refl)
    | inr e ↦ rw (insert_absent b w.reg absent, e) (published e)
  ]

module _ (start : FlowCell → FlowCell) (wire_id sess : ℕ) (target : TargetAddrRef) (w : World) where
  -- The new binding, and the world with its atomics.
  abbrev pub made : FlowBinding × World
  made = new_with start wire_id sess target w

  pub made_cell : cell_of made.1.store made.0 ≡ start new_cell
  unfolding new_shared
  made_cell = ground arith

  made_inserted :
      (t : SessionFlows)
      → Consistent w.reg
      → w.reg.cap < 2 ^ 64
      → lookup wire_id w.reg.map ≡ none
      → (let r = after_open wire_id t made.1 (insert made.0 made.1.reg) in
          Outcome w.reg t wire_id sess target (start new_cell) r.flows r.world r.answer)
  unfolding new_shared
  made_inserted t c small absent =
      let r = after_open wire_id t made.1 (insert made.0 made.1.reg) in
      subst (λ cell. Outcome w.reg t wire_id sess target cell r.flows r.world r.answer) made_cell
        (inserted made.0 t made.1 c small absent)

-- `r2_install` of an id that the registry does not have, for a session with or without a live entry
-- and whatever became of its table since the check: when it is refused, the registry has the flows
-- it had and no other, its counter is as before, and the session's table is unchanged; when it
-- returns a binding, this has the id, session and target, it is open with the resolved addresses, it
-- is under its id in the registry, and the session's table finds this very binding under the id,
-- unless the table had one under the id before: that one then stays, and the table is unchanged. The
-- registry stays consistent.
pub r2_install-Outcome :
    (seen : Option SessionFlows) (t : SessionFlows) (sess wire_id : ℕ) (target : TargetAddrRef)
    (resolved : List SocketAddr) (w : World)
    → Consistent w.reg
    → w.reg.cap < 2 ^ 64
    → lookup wire_id w.reg.map ≡ none
    → (let r = r2_install seen t sess wire_id target resolved w in
        Outcome w.reg t wire_id sess target (start_open resolved new_cell) r.flows r.world r.answer)
unfolding r2_install
r2_install-Outcome none t sess wire_id target resolved w c small absent = (same-SameFlows c, refl)
r2_install-Outcome (some seen) t sess wire_id target resolved w c small absent =
    elim (Bool-cases (refuses w.store wire_id seen)) [
      | inl e ↦ rw (e, r2_install) (same-SameFlows c, refl)
      | inr e ↦
          rw (e, r2_install)
            (made_inserted (start_open resolved) wire_id sess target w t c small absent)
    ]
