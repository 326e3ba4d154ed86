-- ===== src/Mqp/Flow/Window/Solo.antt =====
-- src/mqp/r2_flow.rs: the methods of `FlowBinding` run to their end with no other thread between.
use my_quic.Common.{ℕ, zero, suc, ◌≡◌, true, arith}
use my_quic.Mqp.Flow.Binding.{FlowCell, take_context_slot, mark_open, mark_closed, rearm_context}
use my_quic.Mqp.Flow.Window.{
  Call, open_call, close_call, slot_call, rearm_call, Pc, idle, open_read, open_swap, close_write,
  slot_read, slot_left, slot_last, slot_clear, slot_swap, returned, rearm_read, rearm_write,
  rearm_swap, enter, step, is_free,
}

-- The next accesses of one thread, alone.
unfoldable pub solo : ℕ → FlowCell × Pc → FlowCell × Pc
unfolding step
solo zero (c, p) = (c, p)
solo (suc n) (c, p) = solo n (step c p)

-- What each call is to do.
abbrev pub method : Call → FlowCell → FlowCell × Pc
method open_call c = (mark_open c, idle)
method close_call c = (mark_closed c, idle)
method slot_call c = let (granted, c') = take_context_slot c in (c', returned granted)
method rearm_call c = (rearm_context c, idle)

-- A call that no other thread disturbs ends within four atomic accesses as the method does.
pub solo-enter : (call : Call) (c : FlowCell) → solo 4 (c, enter call) ≡ method call c
unfolding solo mark_open mark_closed take_context_slot rearm_context
solo-enter open_call c = ground arith
solo-enter close_call c = ground arith
solo-enter slot_call c = ground arith
solo-enter rearm_call c = ground arith

-- Wherever a thread stands in a call, and whatever the others made of the cell meanwhile: if they
-- now pause, five accesses of its own end the call, the loop of `take_context_slot` included.
pub solo_ends : (p : Pc) (c : FlowCell) → is_free (solo 5 (c, p)).1 ≡ true
unfolding solo
solo_ends idle c = ground arith
solo_ends (returned b) c = ground arith
solo_ends open_read c = ground arith
solo_ends open_swap c = ground arith
solo_ends close_write c = ground arith
solo_ends slot_read c = ground arith
solo_ends slot_left c = ground arith
solo_ends slot_last c = ground arith
solo_ends slot_clear c = ground arith
solo_ends (slot_swap left) c = ground arith
solo_ends rearm_read c = ground arith
solo_ends rearm_write c = ground arith
solo_ends rearm_swap c = ground arith
