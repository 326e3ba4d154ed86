-- ===== src/Mqp/CtlStream/Rate.antt =====
-- src/mqp/ctl_stream.rs, `CtlRate`: how many messages a window lets through.
use my_quic.Common.{
  ℕ, suc, ◌+◌, ◌-◌, ◌≤◌, ◌<◌, ◌≡◌, refl, ap, ◌∙◌, true, false, List, [], ◌∷◌, arith, ◌==◌,
  if◌then◌else◌, length, All, Bool-cases, inl, inr,
}
use Prim.Native.Nat.{min}
use my_quic.Mqp.CtlStream.{CtlRate, allow}

-- A run of calls at the given times: how many were allowed, and the budget after them.
pub run : CtlRate → List ℕ → ℕ × CtlRate
run r [] = (0, r)
run r (t ∷ ts) =
    let (ok, r') = allow r t in let (n, r'') = run r' ts in ((if ok then suc n else n), r'')

-- A call in the window spends a slot, if one is left.
allow_window :
    (r : CtlRate) (t : ℕ)
    → t < r.window_ms + 1000
    → allow r t ≡ (if r.count == 0 then (false, r) else (true, record r { count = r.count - 1 }))
unfolding allow
allow_window r t h = ground arith

-- Calls within the window.
run_window :
    (ts : List ℕ) (r : CtlRate)
    → All (λ t. t < r.window_ms + 1000) ts
    → ((run r ts).0 ≡ min (length ts) r.count)
      × ((run r ts).1 ≡ record r { count = r.count - length ts })
unfolding run
run_window [] r h = (omega arith, ground arith)
run_window (t ∷ ts) r h = elim (Bool-cases (r.count == 0)) [
  | inl z ↦
      let e : allow r t ≡ (false, r) = allow_window r t h.0 ∙ rw z refl in
      let ih = run_window ts r h.1 in rw e (ground (arith, ih), ih.1 ∙ ground arith)
  | inr z ↦
      let r' : CtlRate = record r { count = r.count - 1 } in
      let e : allow r t ≡ (true, r') = allow_window r t h.0 ∙ rw z refl in
      let ih = run_window ts r' h.1 in rw e (ground (arith, ih), ih.1 ∙ ground arith)
]

-- A call after the window.
allow_refill :
    (r : CtlRate) (now : ℕ)
    → r.window_ms + 1000 ≤ now
    → ((allow r now).0 ≡ (if r.max_per_sec == 0 then false else true))
      × ((allow r now).1 ≡ record r { window_ms = now; count = r.max_per_sec - 1 })
unfolding allow
allow_refill r now h = ground arith

-- Over calls that all fall within the current window, the budget lets through as many as there are
-- calls and slots left, whichever is less, and spends that many. A later call, at least a second after
-- the window's start, opens a new one: it is let through unless the budget is zero, and leaves the full
-- budget less one slot.
pub run_window-allow :
    (ts : List ℕ) (r : CtlRate) (now : ℕ)
    → All (λ t. t < r.window_ms + 1000) ts
    → r.window_ms + 1000 ≤ now
    → ((run r ts).0 ≡ min (length ts) r.count)
      × ((run r ts).1 ≡ record r { count = r.count - length ts })
      × ((allow (run r ts).1 now).0 ≡ (if r.max_per_sec == 0 then false else true))
      × ((allow (run r ts).1 now).1 ≡ record r { window_ms = now; count = r.max_per_sec - 1 })
run_window-allow ts r now h late =
    let (n, after) = run_window ts r h in
    let left : CtlRate = record r { count = r.count - length ts } in
    let (let_through, refilled) = allow_refill left now late in
    (
      n,
      after,
      ap (λ s. (allow s now).0) after ∙ let_through,
      ap (λ s. (allow s now).1) after ∙ refilled,
    )
