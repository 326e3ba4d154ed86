-- ===== src/Mqp/Flow/Window/Promise.antt =====
-- src/mqp/r2_flow.rs: what a binding promises to the calls of one thread. `CONTEXT_REPEATS` steady
-- frames of a flow carry its context, and the last of them makes the flow bound.
use my_quic.Common.{ℕ, zero, suc, ◌≡◌, refl, true, false, Option, none, some, List, [], ◌∷◌, arith}
use my_quic.Mqp.Flow.Binding.{
  FlowState, opening, open_flow, closed, FlowCell, new_cell, context_repeats, mark_open,
  mark_closed, take_context_slot, rearm_context,
}
use my_quic.Mqp.Flow.Window.{
  Call, open_call, close_call, slot_call, rearm_call, Pc, idle, returned, enter,
}
use my_quic.Mqp.Flow.Window.Solo.{solo, method, solo-enter}

-- What is owed to the peer: nothing any more on a closed flow, and else so many frames with context.
abbrev pub Owed : Type 0
Owed = Option ℕ

-- What each call answers and leaves to be owed.
abbrev pub serve : Call → Owed → Owed × Pc
serve open_call (some n) = (some 0, idle)
serve close_call o = (none, idle)
serve slot_call (some (suc n)) = (some n, returned true)
serve slot_call o = (o, returned false)
serve rearm_call (some n) = (some context_repeats, idle)
serve _ none = (none, idle)

abbrev pub state_of : Owed → FlowState
state_of none = closed
state_of (some zero) = open_flow
state_of (some (suc n)) = opening

-- The calls one after the other, each by its atomic accesses: where each ends, and the cell at last.
unfoldable pub perform : List Call → FlowCell → List Pc × FlowCell
unfolding solo
perform [] c = ([], c)
perform (call ∷ calls) c =
    let (c', answer) = solo 4 (c, enter call) in
    let (answers, last) = perform calls c' in (answer ∷ answers, last)

-- What is promised of them.
unfoldable pub promise : List Call → Owed → List Pc × Owed
promise [] o = ([], o)
promise (call ∷ calls) o =
    let (o', answer) = serve call o in
    let (answers, last) = promise calls o' in (answer ∷ answers, last)

-- The cell stands for what is owed.
abbrev Stands : Owed → FlowCell → Type 0
Stands none c = c.state ≡ closed
Stands (some zero) c = c.state ≡ open_flow
Stands (some (suc n)) c = (c.state ≡ opening) × (c.context_left ≡ suc n)

Stands-state_of : (o : Owed) (c : FlowCell) → Stands o c → c.state ≡ state_of o
Stands-state_of none c h = h
Stands-state_of (some zero) c h = h
Stands-state_of (some (suc n)) c h = h.0

method-Stands :
    (call : Call) (o : Owed) (c : FlowCell)
    → Stands o c
    → Stands (serve call o).0 (method call c).0 × ((method call c).1 ≡ (serve call o).1)
unfolding mark_open mark_closed take_context_slot rearm_context
method-Stands open_call none c h = ground (arith, h)
method-Stands open_call (some zero) c h = ground (arith, h)
method-Stands open_call (some (suc n)) c h = ground (arith, h)
method-Stands close_call none c h = ground (arith, h)
method-Stands close_call (some n) c h = ground (arith, h)
method-Stands slot_call none c h = ground (arith, h)
method-Stands slot_call (some zero) c h = ground (arith, h)
method-Stands slot_call (some (suc zero)) c h = ground (arith, h)
method-Stands slot_call (some (suc (suc n))) c h = ground (arith, h)
method-Stands rearm_call none c h = ground (arith, h)
method-Stands rearm_call (some zero) c h = ground (arith, h)
method-Stands rearm_call (some (suc n)) c h = ground (arith, h)

abbrev Kept : List Pc × FlowCell → List Pc × Owed → Type 0
Kept (answers, c) (promised, o) = (answers ≡ promised) × (c.state ≡ state_of o)

perform-Kept :
    (calls : List Call) (o : Owed) (c : FlowCell)
    → Stands o c
    → Kept (perform calls c) (promise calls o)
unfolding perform promise
perform-Kept [] o c h = (refl, Stands-state_of o c h)
perform-Kept (call ∷ calls) o c h =
    let alone = solo-enter call c in
    let (stands, answer) = method-Stands call o c h in
    let (answers, last) = perform-Kept calls (serve call o).0 (method call c).0 stands in
    rw alone (cc (answer, answers), last)

-- On a new binding, for any calls of `mark_open`, `mark_closed`, `take_context_slot` and
-- `rearm_context` one after the other, each made of its atomic accesses with no other thread between:
-- a slot is granted exactly while frames with context are owed, each granted slot pays one of them,
-- `rearm_context` makes the full number owed again unless the flow is closed, `mark_open` lets off the
-- rest, and after `mark_closed` nothing is owed for ever. The flow ends closed, open where nothing is
-- owed, and opening where something is.
pub perform-promise :
    (calls : List Call)
    → ((perform calls new_cell).0 ≡ (promise calls (some context_repeats)).0)
      × ((perform calls new_cell).1.state ≡ state_of (promise calls (some context_repeats)).1)
perform-promise calls = perform-Kept calls (some context_repeats) new_cell (refl, refl)
