-- ===== src/Server/Install/Unsolicited.antt =====
-- src/bin/myquic2-server/reader.rs: `install_unsolicited` leaves a flow in both tables or in neither.
use my_quic.Common.{
  ℕ, ◌+◌, ◌<◌, ◌≤◌, ◌^◌, ◌≡◌, refl, subst, false, Option, none, some, leb, arith, length,
  Bool-cases, inl, inr,
}
use my_quic.Common.Assoc.{lookup}
use my_quic.Mqp.Addr.{SocketAddr, TargetAddrRef, ip}
use my_quic.Mqp.R2.{max_local}
use my_quic.Mqp.Wire.{Wire, rev3, max_r3_local_id}
use my_quic.Mqp.Wire.Ids.{next_id, alloc_wire_id_cases, alloc_wire_id_unmapped}
use my_quic.Mqp.Flow.Binding.{FlowBinding, FlowCell, cell_of, new_shared, new_cell}
use my_quic.Mqp.Flow.Registry.{FlowRegistry, World, insert}
use my_quic.Mqp.Flow.Registry.Invariant.{Consistent, add-Consistent}
use my_quic.Mqp.Flow.Registry.Steps.{Sound}
use my_quic.Mqp.Flow.Registry.Sound.{next_absent}
use my_quic.Mqp.Flow.Session.{SessionFlows, is_full}
use my_quic.Mqp.Flow.Session.Slots.{insert_outcome}
use my_quic.Server.Install.{
  Installed, after_insert, publish_unsolicited, start_unsolicited, after_alloc, install_unsolicited,
}
use my_quic.Server.Install.Undo.{SameFlows, same-SameFlows, insert_absent, remove-SameFlows}
use my_quic.Server.Install.Opened.{InBoth, added, added_lookup, made, made_cell}

-- What is left, where `r` was the registry and `t` the table.
abbrev pub Outcome :
    FlowRegistry
    → SessionFlows
    → ℕ
    → TargetAddrRef
    → FlowCell
    → SessionFlows
    → World
    → Option FlowBinding
    → Type 0
Outcome r t sess target cell t' w' none = SameFlows r w'.reg × (t' ≡ t)
Outcome r t sess target cell t' w' (some b) =
    (b.session ≡ sess) × (b.target ≡ target) × InBoth cell w' t t' b

module _ (b : FlowBinding) (t : SessionFlows) (w : World) (c : Consistent w.reg)
    (small : w.reg.cap < 2 ^ 64) (absent : lookup b.wire_id w.reg.map ≡ none) where
  abbrev Settled : Installed (Option FlowBinding) → Type 0
  Settled r = Outcome w.reg t b.session b.target (cell_of w.store b) r.flows r.world r.answer

  published :
      leb w.reg.cap (length w.reg.map) ≡ false
      → Settled (publish_unsolicited b.wire_id t (added b t w c small absent) b)
  unfolding publish_unsolicited
  published room = elim (insert_outcome w.store b t) [
    | inl (e, full', none_there) ↦
        rw (e, publish_unsolicited) (remove-SameFlows b w.reg c small absent room, refl)
    | inr (e, there) ↦
        rw (e, publish_unsolicited)
          (
            refl,
            refl,
            record {
              registered = added_lookup b t w c small absent;
              listed = there;
              atomics = refl;
              consistent = add-Consistent w.reg c small b absent (ground arith);
            },
          )
  ]

  inserted : Settled (after_insert b.wire_id t w (insert b w.reg))
  inserted = elim (Bool-cases (leb w.reg.cap (length w.reg.map))) [
    | inl e ↦ rw (insert_absent b w.reg absent, e) (same-SameFlows c, refl)
    | inr e ↦ rw (insert_absent b w.reg absent, e) (published e)
  ]

module _ (sess : ℕ) (src : SocketAddr) (t : SessionFlows) where
  abbrev pub InstalledOk : World → Installed (Option FlowBinding) → Type 0
  InstalledOk w r =
      Outcome w.reg t sess (ip src) (start_unsolicited src new_cell) r.flows r.world r.answer

  allocated_ok :
      (k : ℕ) (w : World)
      → Consistent w.reg
      → w.reg.cap < 2 ^ 64
      → lookup k w.reg.map ≡ none
      → InstalledOk w (after_alloc sess src t w (some k, w.ids))
  unfolding after_alloc new_shared
  allocated_ok k w c small absent =
      let m = made (start_unsolicited src) k sess (ip src) w in
      let r = after_insert k t m.1 (insert m.0 m.1.reg) in
      subst (λ cell. Outcome w.reg t sess (ip src) cell r.flows r.world r.answer)
        (made_cell (start_unsolicited src) k sess (ip src) w) (inserted m.0 t m.1 c small absent)

-- `install_unsolicited` on a sound connection, whatever became of the session's table since the
-- check: when it returns none, the registry has the flows it had and no other, its counter is as
-- before, and the table is unchanged; when it returns a binding, this is for the session with the
-- source as its target, it is open with the source as its reply source, it is under its id in the
-- registry, and the table finds this very binding under the id, unless the table had one under the
-- new id before: that one then stays, and the table is unchanged. The registry stays consistent.
pub install_unsolicited-Outcome :
    (wire : Wire) (sess : ℕ) (src : SocketAddr) (seen t : SessionFlows) (w : World)
    → Sound w
    → InstalledOk sess src t w (install_unsolicited wire sess src seen t w)
unfolding install_unsolicited after_alloc
install_unsolicited-Outcome wire sess src seen t w s =
    let keeps : SameFlows w.reg w.reg = same-SameFlows s.consistent in
    elim (Bool-cases (is_full w.store seen)) [
      | inl e ↦ rw (e, install_unsolicited) (keeps, refl)
      | inr e ↦ elim (Bool-cases (leb w.reg.cap (length w.reg.map))) [
        | inl f ↦ rw (e, install_unsolicited, f) (keeps, refl)
        | inr f ↦ elim (alloc_wire_id_cases w.ids wire) [
          | inl g ↦
              rw (e, install_unsolicited, f, g)
                (allocated_ok sess src t (next_id w.ids)
                  (record w { ids = record w.ids { next = w.ids.next + 1 } }) s.consistent s.small
                  (next_absent w.ids w.store.fresh w.reg.map s.spent))
          | inr (inl g) ↦ rw (e, install_unsolicited, f, g) (keeps, refl)
          | inr (inr g) ↦ rw (e, install_unsolicited, f, g) (keeps, refl)
        ]
      ]
    ]

-- Where the flow ids of revision 3 are used up, while the table has room and the session's too:
-- `install_unsolicited` returns none, and a wire id is spent all the same.
pub install_unsolicited_spends :
    (sess : ℕ) (src : SocketAddr) (seen t : SessionFlows) (w : World)
    → is_full w.store seen ≡ false
    → length w.reg.map < w.reg.cap
    → max_r3_local_id ≤ w.ids.next
    → w.ids.next < max_local
    → ((install_unsolicited rev3 sess src seen t w).answer ≡ none)
      × ((install_unsolicited rev3 sess src seen t w).world.ids.next ≡ w.ids.next + 1)
unfolding install_unsolicited after_alloc
install_unsolicited_spends sess src seen t w e f g h =
    let f' : leb w.reg.cap (length w.reg.map) ≡ false = ground arith in
    rw (e, install_unsolicited, f', alloc_wire_id_unmapped w.ids g h) (refl, refl)
