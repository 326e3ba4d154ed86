-- ===== src/Mqp/Flow/Window.antt =====
-- src/mqp/r2_flow.rs: the methods of `FlowBinding` that race, one atomic access at a time, in threads
-- that share one binding.
pub mod Solo
pub mod Close
pub mod Promise
use my_quic.Common.{
  ℕ, ◌+◌, ◌-◌, ◌≡◌, ◌≢◌, refl, Bool, true, false, not, ◌&&◌, ◌==◌, leb, if◌then◌else◌, arith, ap,
}
use my_quic.Mqp.Flow.Binding.{
  FlowState, opening, open_flow, closed, is_opening, is_open_flow, is_closed, FlowCell,
  context_repeats, take_context_slot,
}

pub data Call : Type 0 where
  open_call close_call slot_call rearm_call : Call

-- Where a thread stands, with the local variables that are live there. `returned` keeps the last
-- result of `take_context_slot`.
pub data Pc : Type 0 where
  idle : Pc
  open_read : Pc  -- `mark_open`
  open_swap : Pc
  close_write : Pc  -- `mark_closed`
  slot_read : Pc  -- head of the loop in `take_context_slot`
  slot_left : Pc
  slot_last : Pc
  slot_clear : Pc
  slot_swap : (left : ℕ) → Pc
  returned : Bool → Pc
  rearm_read : Pc  -- `rearm_context`
  rearm_write : Pc
  rearm_swap : Pc

abbrev pub enter : Call → Pc
enter open_call = open_read
enter close_call = close_write
enter slot_call = slot_read
enter rearm_call = rearm_read

-- A `compare_exchange` on the state.
abbrev pub swap_state {ℓ} : {A : Type ℓ} → Bool → FlowState → FlowCell → A → A → FlowCell × A
swap_state expected new c won lost = if expected then (record c { state = new }, won) else (c, lost)

-- The next access of a thread, and where it stands then.
unfoldable pub step : FlowCell → Pc → FlowCell × Pc
step c idle = (c, idle)
step c (returned b) = (c, returned b)
step c open_read = (c, if is_opening c.state then open_swap else idle)
step c open_swap = swap_state (is_opening c.state) open_flow c idle idle
step c close_write = (record c { state = closed }, idle)
step c slot_read = (c, if is_opening c.state then slot_left else returned false)
step c slot_left = (c, if leb c.context_left 1 then slot_last else slot_swap c.context_left)
step c slot_last = swap_state (is_opening c.state) open_flow c slot_clear slot_read
step c slot_clear = (record c { context_left = 0 }, returned true)
step c (slot_swap left) =
    if c.context_left == left
    then (record c { context_left = left - 1 }, returned true)
    else (c, slot_read)
step c rearm_read = (c, if is_closed c.state then idle else rearm_write)
step c rearm_write = (record c { context_left = context_repeats }, rearm_swap)
step c rearm_swap = swap_state (is_open_flow c.state) opening c idle idle

-- Between calls.
abbrev pub is_free : Pc → Bool
is_free idle = true
is_free (returned b) = true
is_free _ = false

pub record Threads : Type 0 where
  pub cell : FlowCell
  pub pc : ℕ → Pc

abbrev pub at : (ℕ → Pc) → ℕ → Pc → ℕ → Pc
at pc i p j = if j == i then p else pc j

-- A thread begins a call, or makes its next access.
pub data Step (s : Threads) : Threads → Type 0 where
  begin :
      (i : ℕ) (call : Call)
      → is_free (s.pc i) ≡ true
      → Step s (record s { pc = at s.pc i (enter call) })
  access :
      (i : ℕ)
      → Step s (record { cell = (step s.cell (s.pc i)).0; pc = at s.pc i (step s.cell (s.pc i)).1 })

pub data Reach (s : Threads) : Threads → Type 0 where
  here : Reach s s
  next : {t u : Threads} → Reach s t → Step t u → Reach s u

-- Whether a thread, once it is past the first read of `take_context_slot`, may still be granted a slot.
abbrev pub is_pending : Pc → Bool
is_pending slot_left = true
is_pending slot_last = true
is_pending slot_clear = true
is_pending (slot_swap left) = true
is_pending _ = false

abbrev pub is_granted : Pc → Bool
is_granted (returned b) = b
is_granted _ = false

-- Whether the next access of a thread ends its call with a slot.
unfoldable pub grants : Threads → ℕ → Bool
unfolding step
grants s i = not (is_free (s.pc i)) && is_granted (step s.cell (s.pc i)).1

abbrev pub one_if : Bool → ℕ
one_if b = if b then 1 else 0

abbrev pub granted_by : {s t : Threads} → ℕ → Step s t → ℕ
granted_by i (begin j call free) = 0
granted_by {s} i (access j) = if i == j then one_if (grants s j) else 0

-- The slots that a thread is granted over a run.
abbrev pub granted : {s t : Threads} → ℕ → Reach s t → ℕ
granted i here = 0
granted i (next r st) = granted i r + granted_by i st
