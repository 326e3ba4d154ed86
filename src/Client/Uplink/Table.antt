-- ===== src/Client/Uplink/Table.antt =====
-- src/bin/myquic2-client/rev2.rs: an association's table holds flows of its session only.
use my_quic.Common.{
  ℕ, zero, suc, replicate, ◌+◌, ◌≡◌, refl, ap, Bool, true, not, ◌&&◌, Option, none, some, List, [],
  ◌∷◌, ◌==◌, ltb, arith, All,
}
use my_quic.Mqp.Addr.{TargetAddrRef}
use my_quic.Mqp.Flow.Binding.{FlowBinding, FlowCell, Store, update, target_eq}
use my_quic.Mqp.Flow.Registry.{Bindings, scan_server_flow, find_server_flow, FlowRegistry}
use my_quic.Mqp.Flow.Registry.Steps.{Spent}
use my_quic.Mqp.Flow.Ids.{FlowIds}
use my_quic.Mqp.Flow.Session.{
  Slot, SessionFlows, find_binding, find, fill, insert, vacate, remove, any_vacant, is_full,
  max_flows_per_session,
}
use my_quic.Client.Uplink.{UplinkFlows, new}

-- A binding of the session, whose atomics are below the place `n`.
abbrev pub is_of : ℕ → ℕ → FlowBinding → Bool
is_of s n b = b.session == s && ltb b.cell n

abbrev pub slot_ok : ℕ → ℕ → Slot → Bool
slot_ok s n none = true
slot_ok s n (some b) = is_of s n b

abbrev pub SlotsOk : ℕ → ℕ → List Slot → Type 0
SlotsOk s n = All (λ e. slot_ok s n e ≡ true)

abbrev pub memo_ok : ℕ → Option (TargetAddrRef × FlowBinding) → Bool
memo_ok n none = true
memo_ok n (some (t, b)) = target_eq b.target t && ltb b.cell n

-- The bindings in the table are of the session, and the memo has the target of its binding.
pub record Owned (s n : ℕ) (u : UplinkFlows) : Type 0 where
  pub slots : SlotsOk s n u.flows.entries
  pub memo : memo_ok n u.last ≡ true

module _ (s n : ℕ) where
  fill-SlotsOk :
      (h : Store) (b : FlowBinding) (es : List Slot)
      → is_of s n b ≡ true
      → SlotsOk s n es
      → SlotsOk s n (fill h b es)
  unfolding fill
  fill-SlotsOk h b [] e ok = tt
  fill-SlotsOk h b (d ∷ es) e ok = ground (arith, fill-SlotsOk h b es e ok.1)

  pub insert-SlotsOk :
      (h : Store) (b : FlowBinding) (t : SessionFlows)
      → is_of s n b ≡ true
      → SlotsOk s n t.entries
      → SlotsOk s n (insert h b t).1.entries
  unfolding insert
  insert-SlotsOk h b t e ok = ground (arith, fill-SlotsOk h b t.entries e ok)

  vacate-SlotsOk : (k : ℕ) (es : List Slot) → SlotsOk s n es → SlotsOk s n (vacate k es)
  unfolding vacate
  vacate-SlotsOk k [] ok = tt
  vacate-SlotsOk k (none ∷ es) ok = (refl, vacate-SlotsOk k es ok.1)
  vacate-SlotsOk k (some b ∷ es) ok = ground (arith, vacate-SlotsOk k es ok.1)

  pub remove-SlotsOk :
      (k : ℕ) (t : SessionFlows) → SlotsOk s n t.entries → SlotsOk s n (remove k t).1.entries
  unfolding remove
  remove-SlotsOk k t ok = vacate-SlotsOk k t.entries ok

  pub grow-SlotsOk : (es : List Slot) → SlotsOk s n es → SlotsOk s (n + 1) es
  grow-SlotsOk [] ok = tt
  grow-SlotsOk (none ∷ es) ok = (refl, grow-SlotsOk es ok.1)
  grow-SlotsOk (some b ∷ es) ok = (ground arith, grow-SlotsOk es ok.1)

  -- What `find` returns.
  found_ok :
      (a : TargetAddrRef) (es : List Slot) {b : FlowBinding}
      → SlotsOk s n es
      → find_binding (λ c. target_eq c.target a) es ≡ some b
      → (target_eq b.target a ≡ true) × (is_of s n b ≡ true)
  unfolding find_binding
  found_ok a [] ok e = cc
  found_ok a (none ∷ es) ok e = found_ok a es ok.1 e
  found_ok a (some c ∷ es) {b} ok e = ground (arith, found_ok a es {b = b} ok.1)

  pub find_ok :
      (a : TargetAddrRef) (t : SessionFlows) {b : FlowBinding}
      → SlotsOk s n t.entries
      → find a t ≡ some b
      → (target_eq b.target a ≡ true) × (is_of s n b ≡ true)
  unfolding find
  find_ok a t ok e = found_ok a t.entries ok e

  -- A new cell does not change which slots are vacant.
  fresh_vacant :
      (h : Store) (c : FlowCell) (es : List Slot)
      → SlotsOk s h.fresh es
      → any_vacant (record h { fresh = n; cells = update h.cells h.fresh c }) es ≡ any_vacant h es
  unfolding any_vacant
  fresh_vacant h c [] ok = refl
  fresh_vacant h c (none ∷ es) ok = refl
  fresh_vacant h c (some b ∷ es) ok = ground (arith, fresh_vacant h c es ok.1)

  pub fresh_full :
      (h : Store) (c : FlowCell) (t : SessionFlows)
      → SlotsOk s h.fresh t.entries
      → is_full (record h { fresh = n; cells = update h.cells h.fresh c }) t ≡ is_full h t
  unfolding is_full
  fresh_full h c t ok = ap not (fresh_vacant h c t.entries ok)

-- What `find_server_flow` returns.
scan_ok :
    (ids : FlowIds) (s n : ℕ) (a : TargetAddrRef) (m : Bindings) {b : FlowBinding}
    → Spent ids n m
    → scan_server_flow s a m ≡ some b
    → (target_eq b.target a ≡ true) × (is_of s n b ≡ true)
unfolding scan_server_flow
scan_ok ids s n a [] sp e = cc
scan_ok ids s n a ((k, c) ∷ m) {b} sp e = ground (arith, scan_ok ids s n a m {b = b} sp.1)

pub find_server_flow_ok :
    (ids : FlowIds) (s n : ℕ) (a : TargetAddrRef) (r : FlowRegistry) {b : FlowBinding}
    → Spent ids n r.map
    → find_server_flow s a r ≡ some b
    → (target_eq b.target a ≡ true) × (is_of s n b ≡ true)
unfolding find_server_flow
find_server_flow_ok ids s n a r {b} sp e = ground (arith, scan_ok ids s n a r.map {b = b} sp)

replicate-SlotsOk : (s n k : ℕ) → SlotsOk s n (replicate k none)
replicate-SlotsOk s n zero = tt
replicate-SlotsOk s n (suc k) = (refl, replicate-SlotsOk s n k)

-- The state in which an association starts.
pub new-Owned : (s n : ℕ) → Owned s n new
new-Owned s n = record { slots = replicate-SlotsOk s n max_flows_per_session; memo = refl }
