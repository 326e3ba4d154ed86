-- ===== src/Client/Uplink/Ensure.antt =====
-- src/bin/myquic2-client/rev2.rs: what `ensure_binding` may return, and what it leaves.
use my_quic.Common.{
  ℕ, ◌+◌, ◌≡◌, refl, sym, ◌∙◌, Bool, true, false, not, ◌&&◌, Option, none, some, ◌==◌, arith,
  Bool-cases, Option-cases, inl, inr,
}
use my_quic.Mqp.Addr.{TargetAddrRef}
use my_quic.Mqp.Flow.Ids.{FlowIds}
use my_quic.Mqp.Flow.Binding.{
  FlowBinding, Store, cell_of, is_open, new_cell, target_eq, target_eq_refl, target_eq→eq,
}
use my_quic.Mqp.Flow.Registry.{
  ok, err, full, World, add, find_server_flow, has_capacity, insert_new_for,
}
use my_quic.Mqp.Flow.Registry.Open.{has_room, fresh_binding, spend}
use my_quic.Mqp.Flow.Registry.Steps.{Sound, open_flow, close_flow}
use my_quic.Mqp.Flow.Registry.Sound.{Step-Sound, insert_new_for_lem}
use my_quic.Mqp.Flow.Session
use my_quic.Mqp.Flow.Session.{SessionFlows, Slot, is_full, find}
use my_quic.Mqp.Flow.Session.Slots.{insert_outcome}
use my_quic.Client.Rejects.{is_rejected}
use my_quic.Client.Uplink
use my_quic.Client.Uplink.{
  ConnRev2, UplinkFlows, Ensured, binding_closed, unregister, inline, answer_with, memo_hit,
  published, open_fresh, reuse, search_table, after_memo, ensure_binding,
}
use my_quic.Client.Uplink.Table.{
  is_of, memo_ok, Owned, insert-SlotsOk, remove-SlotsOk, grow-SlotsOk, find_ok, fresh_full,
  find_server_flow_ok,
}

-- A flow that a payload for the target may be sent on.
abbrev pub serves : ℕ → TargetAddrRef → Store → FlowBinding → Bool
serves s a h b = target_eq b.target a && (b.session == s && not (binding_closed h b))

-- Only an answer may cost an id.
abbrev pub AnswerOk : ℕ → TargetAddrRef → FlowIds → World → Option FlowBinding → Type 0
AnswerOk s a ids w none = w.ids ≡ ids
AnswerOk s a ids w (some b) = serves s a w.store b ≡ true

pub record IsServed (s : ℕ) (a : TargetAddrRef) (ids : FlowIds) (r : Ensured) : Type 0 where
  pub sound : Sound r.conn.world
  pub owned : Owned s r.conn.world.store.fresh r.up
  pub answered : AnswerOk s a ids r.conn.world r.answer

module _ (s : ℕ) (a : TargetAddrRef) (u : UplinkFlows) (c : ConnRev2) (w : Sound c.world)
    (o : Owned s c.world.store.fresh u) where
  inline-IsServed : IsServed s a c.world.ids (inline u c)
  inline-IsServed = record { sound = w; owned = o; answered = refl }

  -- The state after a flow is opened.
  abbrev opened : World
  opened = record (spend c.world) { reg = add (fresh_binding s a c.world) c.world.reg }

  abbrev fresh : FlowBinding
  fresh = fresh_binding s a c.world

  fresh_serves : serves s a opened.store fresh ≡ true
  fresh_serves = ground (arith, target_eq_refl a)

  published-IsServed :
      is_full c.world.store u.flows ≡ false
      → Sound opened
      → IsServed s a c.world.ids (published a u c (ok fresh, opened))
  unfolding published
  published-IsServed room w' = elim (insert_outcome opened.store fresh u.flows) [
    | inl (e, full', absent) ↦ cc (
        sym full'
        ∙ fresh_full s (c.world.store.fresh + 1) c.world.store new_cell u.flows o.slots
        ∙ room)
    | inr (e, there) ↦ rw e (record {
      sound = w';
      owned = record {
        slots =
            insert-SlotsOk s opened.store.fresh opened.store fresh u.flows (ground arith)
              (grow-SlotsOk s c.world.store.fresh u.flows.entries o.slots);
        memo = ground (arith, target_eq_refl a);
      };
      answered = fresh_serves;
    })
  ]

  pub open_fresh-IsServed :
      is_full c.world.store u.flows ≡ false → IsServed s a c.world.ids (open_fresh s a u c)
  unfolding open_fresh published
  open_fresh-IsServed room = elim (Bool-cases (has_capacity c.world.reg)) [
    | inr e ↦ rw (e, open_fresh) inline-IsServed
    | inl e ↦ elim (Bool-cases (has_room c.wire c.world)) [
      | inl f ↦
          let opens : insert_new_for c.wire s a c.world ≡ (ok fresh, opened) =
            insert_new_for_lem c.wire s a c.world w ∙ rw f refl in
          let after : Sound opened = rw opens at (Step-Sound (open_flow c.wire s a) w) in
          rw (e, open_fresh, opens) (published-IsServed room after)
      | inr f ↦
          let refuses : insert_new_for c.wire s a c.world ≡ (err full, c.world) =
            insert_new_for_lem c.wire s a c.world w ∙ rw f refl in
          rw (e, open_fresh, refuses, published) inline-IsServed
    ]
  ]

module _ (s : ℕ) (a : TargetAddrRef) (u : UplinkFlows) (c : ConnRev2) (w : Sound c.world)
    (o : Owned s c.world.store.fresh u) where
  open_serves :
      (b : FlowBinding)
      → target_eq b.target a ≡ true
      → is_of s c.world.store.fresh b ≡ true
      → is_open (cell_of c.world.store b) ≡ true
      → serves s a c.world.store b ≡ true
  unfolding is_open
  open_serves b t i e = ground arith

  -- A flow of the server's that is open.
  reuse_open :
      (b : FlowBinding)
      → (target_eq b.target a ≡ true) × (is_of s c.world.store.fresh b ≡ true)
      → is_open (cell_of c.world.store b) ≡ true
      → IsServed s a c.world.ids (reuse s a u c (some b))
  unfolding reuse
  reuse_open b (t, i) e = elim (insert_outcome c.world.store b u.flows) [
    | inl (f, full', absent) ↦ rw (e, reuse, f) (inline-IsServed s a u c w o)
    | inr (f, there) ↦
        rw (e, reuse, f)
          (record {
            sound = w;
            owned = record {
              slots = insert-SlotsOk s c.world.store.fresh c.world.store b u.flows i o.slots;
              memo = ground arith;
            };
            answered = open_serves b t i e;
          })
  ]

  reuse-IsServed :
      is_full c.world.store u.flows ≡ false
      → IsServed s a c.world.ids (reuse s a u c (find_server_flow s a c.world.reg))
  unfolding reuse
  reuse-IsServed room = elim (Option-cases (find_server_flow s a c.world.reg)) [
    | inl e ↦ rw (e, reuse) (open_fresh-IsServed s a u c w o room)
    | inr (b, e) ↦ elim (Bool-cases (is_open (cell_of c.world.store b))) [
      | inl f ↦ rw e (
          reuse_open b
            (find_server_flow_ok c.world.ids s c.world.store.fresh a c.world.reg w.spent e) f)
      | inr f ↦ elim (Bool-cases (binding_closed c.world.store b)) [
        | inl g ↦
            rw (e, reuse, f, g)
              (open_fresh-IsServed s a u (unregister b.wire_id c)
                (Step-Sound (close_flow b.wire_id) w) o room)
        | inr g ↦ rw (e, reuse, f, g) (open_fresh-IsServed s a u c w o room)
      ]
    ]
  ]

module _ (s : ℕ) (a : TargetAddrRef) (u : UplinkFlows) (c : ConnRev2) (w : Sound c.world)
    (o : Owned s c.world.store.fresh u) where
  open_flow-IsServed : (now : ℕ) → IsServed s a c.world.ids (Uplink.open_flow now s a u c)
  unfolding Uplink.open_flow
  open_flow-IsServed now =
      let rejected = (is_rejected a now c.rejected c.rejected).1 in
      let c' : ConnRev2 = record c { rejected = rejected } in
      elim (Bool-cases (is_full c.world.store u.flows)) [
        | inl e ↦ rw (e, Uplink.open_flow) (inline-IsServed s a u c w o)
        | inr e ↦ elim (Bool-cases (is_rejected a now c.rejected c.rejected).0) [
          | inl f ↦ rw (e, Uplink.open_flow, f) (inline-IsServed s a u c' w o)
          | inr f ↦ rw (e, Uplink.open_flow, f) (reuse-IsServed s a u c' w o e)
        ]
      ]

module _ (s : ℕ) (a : TargetAddrRef) (u : UplinkFlows) (c : ConnRev2) (w : Sound c.world)
    (o : Owned s c.world.store.fresh u) where
  search_table-IsServed :
      (now : ℕ) → IsServed s a c.world.ids (search_table now s a u c (find a u.flows))
  unfolding search_table
  search_table-IsServed now = elim (Option-cases (find a u.flows)) [
    | inl e ↦ rw (e, search_table) (open_flow-IsServed s a u c w o now)
    | inr (b, e) ↦
        let (t, i) = find_ok s c.world.store.fresh a u.flows o.slots e in
        elim (Bool-cases (binding_closed c.world.store b)) [
          | inl f ↦
              rw (e, search_table, f)
                (open_flow-IsServed s a (record u { flows = (Session.remove b.wire_id u.flows).1 })
                  (unregister b.wire_id c) (Step-Sound (close_flow b.wire_id) w)
                  (record {
                    slots = remove-SlotsOk s c.world.store.fresh b.wire_id u.flows o.slots;
                    memo = o.memo;
                  })
                  now)
          | inr f ↦
              rw (e, search_table, f)
                (record {
                  sound = w;
                  owned = record { slots = o.slots; memo = ground arith };
                  answered = ground arith;
                })
        ]
  ]

  -- What the memo gives.
  memo_serves :
      (m : Option (TargetAddrRef × FlowBinding)) {b : FlowBinding}
      → memo_ok c.world.store.fresh m ≡ true
      → memo_hit c.world.store s a m ≡ some b
      → serves s a c.world.store b ≡ true
  memo_serves none k e = cc
  memo_serves (some (t, d)) {b} k e = ground (arith, target_eq→eq t a)

-- `ensure_binding` on a sound connection, for an association whose table holds flows of its session:
-- a binding it answers is bound to the payload's target, belongs to the session and is not closed,
-- on each way to it (memo, table, a flow of the server's, a new flow); when it answers none, to send
-- inline, it has spent no id; and it leaves the connection sound and the association's table as such.
pub ensure_binding-IsServed :
    (now s : ℕ) (a : TargetAddrRef) (u : UplinkFlows) (c : ConnRev2)
    → Sound c.world
    → Owned s c.world.store.fresh u
    → IsServed s a c.world.ids (ensure_binding now s a u c)
unfolding ensure_binding after_memo
ensure_binding-IsServed now s a u c w o = elim (Option-cases (memo_hit c.world.store s a u.last)) [
  | inl e ↦
      rw (e, ensure_binding, after_memo)
        (search_table-IsServed s a (record u { last = none }) c w
          (record { slots = o.slots; memo = refl }) now)
  | inr (b, e) ↦
      rw (e, ensure_binding, after_memo)
        (record { sound = w; owned = o; answered = memo_serves s a u c w o u.last o.memo e })
]
