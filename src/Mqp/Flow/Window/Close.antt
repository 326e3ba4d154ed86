-- ===== src/Mqp/Flow/Window/Close.antt =====
-- src/mqp/r2_flow.rs: what interleaved threads do to a binding that is closed.
use my_quic.Common.{
  ℕ, ◌+◌, ◌≡◌, ◌≤◌, refl, ap, sym, subst, ==→eq, false, not, ◌&&◌, ◌==◌, arith, Bool-cases, inl,
  inr,
}
use my_quic.Mqp.Flow.Binding.{closed, FlowCell}
use my_quic.Mqp.Flow.Window.{
  Call, open_call, close_call, slot_call, rearm_call, Pc, enter, step, Threads, Step, begin, access,
  Reach, here, next, is_free, is_pending, is_granted, one_if, grants, granted_by, granted,
}

-- An access on a closed binding: what it grants and what is pending after it was pending before.
step-closed :
    (c : FlowCell) (p : Pc)
    → c.state ≡ closed
    → ((step c p).0.state ≡ closed)
      × (one_if (not (is_free p) && is_granted (step c p).1) + one_if (is_pending (step c p).1)
          ≤ one_if (is_pending p))
unfolding step
step-closed c p e = ground arith

enter_call : (call : Call) → is_pending (enter call) ≡ false
enter_call open_call = refl
enter_call close_call = refl
enter_call slot_call = refl
enter_call rearm_call = refl

Step-granted_by :
    {s t : Threads} (st : Step s t) (i : ℕ)
    → s.cell.state ≡ closed
    → (t.cell.state ≡ closed)
      × (granted_by i st + one_if (is_pending (t.pc i)) ≤ one_if (is_pending (s.pc i)))
unfolding grants
Step-granted_by {s} (begin j call free) i e = elim (Bool-cases (i == j)) [
  | inl same ↦ (e, rw (same, enter_call call) (omega arith))
  | inr other ↦ (e, rw other (omega arith))
]
Step-granted_by {s} (access j) i e = elim (Bool-cases (i == j)) [
  | inl same ↦
      let here_is : s.pc j ≡ s.pc i = ap s.pc (sym (==→eq i j same)) in
      let (kept, counted) = step-closed s.cell (s.pc j) e in
      (
        kept,
        rw same (
            subst
              (λ p.
                one_if (grants s j) + one_if (is_pending (step s.cell (s.pc j)).1)
                ≤ one_if (is_pending p))
              here_is counted),
      )
  | inr other ↦ ((step-closed s.cell (s.pc j) e).0, rw other (omega arith))
]

-- However the threads that share a binding interleave, wherever they stand when it is closed: it
-- stays closed, and from then on no thread is granted a context slot, but for a thread whose call of
-- `take_context_slot` was past its first read of the state by then: it is granted at most one, and
-- none while that call is still under way.
pub Reach-granted :
    {s t : Threads} (r : Reach s t) (i : ℕ)
    → s.cell.state ≡ closed
    → (t.cell.state ≡ closed)
      × (granted i r + one_if (is_pending (t.pc i)) ≤ one_if (is_pending (s.pc i)))
Reach-granted here i e = (e, omega arith)
Reach-granted (next r st) i e =
    let before = Reach-granted r i e in
    let after = Step-granted_by st i before.0 in (after.0, omega (arith, before.1, after.1))
