-- ===== src/Mqp/Flow/Registry/Sound.antt =====
-- src/mqp/r2_flow.rs: what holds of the registry and the allocator throughout a connection.
use my_quic.Common.{
  ℕ, ◌+◌, ◌<◌, ◌^◌, ◌≡◌, refl, ◌∙◌, Bool, true, ◌&&◌, ltb, none, List, [], ◌∷◌, leb, if◌then◌else◌,
  arith, length, Bool-cases, inl, inr,
}
use my_quic.Common.Assoc.{lookup, erase}
use my_quic.Mqp.Addr.{TargetAddrRef}
use my_quic.Mqp.Wire.{Wire}
use my_quic.Mqp.Wire.Ids.{id_room, next_id}
use my_quic.Mqp.Flow.Ids.{FlowIds}
use my_quic.Mqp.Flow.Binding.{FlowBinding, Store, new_shared}
use my_quic.Mqp.Flow.Registry.{
  ok, err, full, FlowRegistry, World, new, add, install, insert, insert_new_for, remove, clear,
  index_binding, unindex_binding, Bindings,
}
use my_quic.Mqp.Flow.Registry.Tally.{others}
use my_quic.Mqp.Flow.Registry.Open.{has_room, fresh_binding, spend, room, no_cap, no_id}
use my_quic.Mqp.Flow.Registry.Invariant.{
  Consistent, new-Consistent, add-Consistent, insert-Consistent, remove-Consistent,
  clear-Consistent,
}
use my_quic.Mqp.Flow.Registry.Reap.{remove_session-Reaped}
use my_quic.Mqp.Flow.Registry.Batch.{each, remove_sessions-each, remove_sessions-Consistent}
use my_quic.Mqp.Wire.Ids.{alloc_wire_id_cases}
use my_quic.Mqp.Flow.Registry.Steps.{
  is_spent, Spent, Sound, accept, open_own, Step, open_flow, open_own_flow, accept_flow, close_flow,
  close_session, close_sessions, close_all, touch, Reach, here, next, connect,
}

pub next_absent :
    (ids : FlowIds) (n : ℕ) (m : Bindings) → Spent ids n m → lookup (next_id ids) m ≡ none
unfolding lookup
next_absent ids n [] h = refl
next_absent ids n ((k, b) ∷ m) h = ground (arith, next_absent ids n m h.1)

Spent-later :
    (ids : FlowIds) (n : ℕ) (m : Bindings)
    → Spent ids n m
    → Spent (record ids { next = ids.next + 1 }) n m
Spent-later ids n [] h = tt
Spent-later ids n ((k, b) ∷ m) h = (ground arith, Spent-later ids n m h.1)

Spent-grow : (ids : FlowIds) (n : ℕ) (m : Bindings) → Spent ids n m → Spent ids (n + 1) m
Spent-grow ids n [] h = tt
Spent-grow ids n ((k, b) ∷ m) h = (ground arith, Spent-grow ids n m h.1)

Spent-erase :
    (ids : FlowIds) (n : ℕ) (k : ℕ) (m : Bindings) → Spent ids n m → Spent ids n (erase k m)
unfolding erase
Spent-erase ids n k [] h = tt
Spent-erase ids n k ((j, b) ∷ m) h = ground (arith, Spent-erase ids n k m h.1)

Spent-others :
    (ids : FlowIds) (n : ℕ) (s : ℕ) (m : Bindings) → Spent ids n m → Spent ids n (others s m)
unfolding others
Spent-others ids n s [] h = tt
Spent-others ids n s ((j, b) ∷ m) h = ground (arith, Spent-others ids n s m h.1)

next_spent : (ids : FlowIds) → is_spent (record ids { next = ids.next + 1 }) (next_id ids) ≡ true
next_spent ids = ground arith

-- On a sound world `insert_new_for` never meets a conflict: where table and ids have room it binds
-- the next id of the allocator to the session and target, with fresh atomics; where they have none
-- it is refused as full, and neither the table nor the allocator nor the store changes.
pub insert_new_for_lem :
    (wire : Wire) (session : ℕ) (target : TargetAddrRef) (w : World)
    → Sound w
    → insert_new_for wire session target w ≡ (
        if has_room wire w
        then (
          ok (fresh_binding session target w),
          record (spend w) { reg = add (fresh_binding session target w) w.reg },
        )
        else (err full, w))
unfolding install
insert_new_for_lem wire session target w s = elim (Bool-cases (leb w.reg.cap (length w.reg.map))) [
  | inl e ↦ rw e (no_cap session target w wire e)
  | inr e ↦ elim (Bool-cases (leb (id_room wire) w.ids.next)) [
    | inl f ↦ rw (e, f) (no_id session target w wire e f)
    | inr f ↦
        rw (e, f)
          (room session target w wire e f
            ∙ rw (next_absent w.ids w.store.fresh w.reg.map s.spent, install) refl)
  ]
]

-- What the table has after `insert`: as before, or the binding too.
insert-Spent :
    (ids : FlowIds) (n : ℕ) (b : FlowBinding) (r : FlowRegistry)
    → (is_spent ids b.wire_id && ltb b.cell n) ≡ true
    → Spent ids n r.map
    → Spent ids n (insert b r).1.map
unfolding insert index_binding
insert-Spent ids n b r h g = ground arith

insert_cap : (b : FlowBinding) (r : FlowRegistry) → (insert b r).1.cap ≡ r.cap
unfolding insert index_binding
insert_cap b r = ground arith

pub remove_cap : (k : ℕ) (r : FlowRegistry) → (remove k r).1.cap ≡ r.cap
unfolding remove unindex_binding
remove_cap k r = ground arith

remove-Spent :
    (ids : FlowIds) (n k : ℕ) (r : FlowRegistry)
    → Spent ids n r.map
    → Spent ids n (remove k r).1.map
unfolding remove unindex_binding
remove-Spent ids n k r g = ground (arith, Spent-erase ids n k r.map g)

each-Spent :
    (ids : FlowIds) (n : ℕ) (ss : List ℕ) (r : FlowRegistry) (h : Store)
    → Consistent r
    → r.cap < 2 ^ 64
    → Spent ids n r.map
    → Spent ids n (each ss r h).1.map
unfolding each
each-Spent ids n [] r h c small g = g
each-Spent ids n (s ∷ ss) r h c small g =
    let p = (remove_session-Reaped s r h c small).1 in
    each-Spent ids n ss _ _ p.consistent (rw p.same_cap small)
      (rw p.map_others (Spent-others ids n s r.map g))

open_flow-Sound :
    (wire : Wire) (session : ℕ) (target : TargetAddrRef) (w : World)
    → Sound w
    → Sound (insert_new_for wire session target w).1
unfolding index_binding
open_flow-Sound wire session target w s =
    rw (insert_new_for_lem wire session target w s) (elim (Bool-cases (has_room wire w)) [
      | inl e ↦ rw e (record {
        consistent =
            add-Consistent w.reg s.consistent s.small (fresh_binding session target w)
              (next_absent w.ids w.store.fresh w.reg.map s.spent) (ground arith);
        small = s.small;
        spent = (
          ground (arith, next_spent w.ids),
          Spent-later w.ids (w.store.fresh + 1) w.reg.map
              (Spent-grow w.ids w.store.fresh w.reg.map s.spent),
        );
      })
      | inr e ↦ rw e s
    ])

accept-Sound :
    (id session : ℕ) (target : TargetAddrRef) (w : World)
    → is_spent w.ids id ≡ true
    → Sound w
    → Sound (accept id session target w)
unfolding new_shared
accept-Sound id session target w h s =
    let b : FlowBinding = (new_shared id session target w.store).0 in
    record {
      consistent = insert-Consistent w.reg s.consistent s.small b;
      small = rw (insert_cap b w.reg) s.small;
      spent =
          insert-Spent w.ids (w.store.fresh + 1) b w.reg (ground arith)
            (Spent-grow w.ids w.store.fresh w.reg.map s.spent);
    }

-- One id more is spent.
later-Sound :
    (w : World) → Sound w → Sound (record w { ids = record w.ids { next = w.ids.next + 1 } })
later-Sound w s = record {
  consistent = s.consistent;
  small = s.small;
  spent = Spent-later w.ids w.store.fresh w.reg.map s.spent;
}

open_own-Sound :
    (wire : Wire) (session : ℕ) (target : TargetAddrRef) (w : World)
    → Sound w
    → Sound (open_own wire session target w)
open_own-Sound wire session target w s = elim (alloc_wire_id_cases w.ids wire) [
  | inl e ↦
      rw (e, open_own)
        (accept-Sound (next_id w.ids) session target
          (record w { ids = record w.ids { next = w.ids.next + 1 } }) (next_spent w.ids)
          (later-Sound w s))
  | inr (inl e) ↦ rw (e, open_own) (later-Sound w s)
  | inr (inr e) ↦ rw (e, open_own) s
]

clear-Sound : (w : World) → Sound w → Sound (record w { reg = (clear w.reg).1 })
unfolding clear
clear-Sound w s = record { consistent = clear-Consistent w.reg; small = s.small; spent = tt }

pub Step-Sound : {w w' : World} → Step w w' → Sound w → Sound w'
Step-Sound {w} (open_flow wire session target) s = open_flow-Sound wire session target w s
Step-Sound {w} (accept_flow id session target foreign) s =
    accept-Sound id session target w (ground arith) s
Step-Sound {w} (open_own_flow wire session target) s = open_own-Sound wire session target w s
Step-Sound {w} (close_flow id) s = record {
  consistent = remove-Consistent w.reg s.consistent s.small id;
  small = rw (remove_cap id w.reg) s.small;
  spent = remove-Spent w.ids w.store.fresh id w.reg s.spent;
}
Step-Sound {w} (close_session t) s =
    let p = (remove_session-Reaped t w.reg w.store s.consistent s.small).1 in
    record {
      consistent = p.consistent;
      small = rw p.same_cap s.small;
      spent =
          rw (p.map_others, p.same_fresh) (Spent-others w.ids w.store.fresh t w.reg.map s.spent);
    }
Step-Sound {w} (close_sessions ss) s =
    let (c, e, f) = remove_sessions-Consistent ss w.reg w.store s.consistent s.small in
    record {
      consistent = c;
      small = rw e s.small;
      spent =
          rw (f, remove_sessions-each ss w.reg w.store)
            (each-Spent w.ids w.store.fresh ss w.reg w.store s.consistent s.small s.spent);
    }
Step-Sound {w} close_all s = clear-Sound w s
Step-Sound (touch p c) s = record { consistent = s.consistent; small = s.small; spent = s.spent }

-- On a connection with a machine-sized cap, after any run of the operations that open, accept and
-- close flows and write to bindings: the registry is consistent (one binding for each id, the session
-- index and the server-owned count say what the table holds, at most `cap` bindings), and every id
-- in the table that has the allocator's owner is one it has handed out.
pub Reach-Sound :
    (cap : ℕ) (server_owned : Bool) (h : Store) {w : World}
    → cap < 2 ^ 64
    → Reach (connect cap server_owned h) w
    → Sound w
unfolding new
Reach-Sound cap server_owned h small here = record {
  consistent = new-Consistent cap;
  small = small;
  spent = tt;
}
Reach-Sound cap server_owned h small (next r st) =
    Step-Sound st (Reach-Sound cap server_owned h small r)
