-- ===== src/Mqp/Flow/Binding.antt =====
-- src/mqp/r2_flow.rs: `FlowBinding`. A binding is shared by reference: its fields that never change
-- stand in `FlowBinding`, beside the place `cell` of its atomics, a `FlowCell` of the store.
use my_quic.Common.{
  ℕ, ◌+◌, ◌-◌, ◌≡◌, refl, Bool, true, false, ◌&&◌, Option, none, some, List, [], ◌∷◌, ◌==◌, leb,
  if◌then◌else◌, arith, length,
}
use my_quic.Common.Bytes.{Bytes}
use my_quic.Mqp.Addr.{SocketAddr, v4, v6, TargetAddrRef, ip, domain}

abbrev pub context_repeats : ℕ
context_repeats = 2

pub data FlowState : Type 0 where
  opening open_flow closed : FlowState

abbrev pub is_opening : FlowState → Bool
is_opening opening = true
is_opening _ = false

abbrev pub is_open_flow : FlowState → Bool
is_open_flow open_flow = true
is_open_flow _ = false

abbrev pub is_closed : FlowState → Bool
is_closed closed = true
is_closed _ = false

-- The atomics.
pub record FlowCell : Type 0 where
  pub state : FlowState
  pub context_left : ℕ
  pub reply_src : Option SocketAddr
  pub reply_src_acked : Bool
  pub resolved : List SocketAddr

pub record FlowBinding : Type 0 where
  pub wire_id : ℕ
  pub session : ℕ
  pub target : TargetAddrRef
  pub cell : ℕ

-- The allocated cells; `fresh` is the first place that is not in use.
pub record Store : Type 0 where
  pub fresh : ℕ
  pub cells : ℕ → FlowCell

abbrev pub update : (ℕ → FlowCell) → ℕ → FlowCell → ℕ → FlowCell
update cells a c b = if b == a then c else cells b

abbrev pub cell_of : Store → FlowBinding → FlowCell
cell_of h b = h.cells b.cell

abbrev pub write : Store → FlowBinding → FlowCell → Store
write h b c = record h { cells = update h.cells b.cell c }

abbrev pub new_cell : FlowCell
new_cell = record {
  state = opening;
  context_left = context_repeats;
  reply_src = none;
  reply_src_acked = false;
  resolved = [];
}

unfoldable pub new_shared : ℕ → ℕ → TargetAddrRef → Store → FlowBinding × Store
new_shared wire_id session target h = (
  record { wire_id = wire_id; session = session; target = target; cell = h.fresh },
  record h { fresh = h.fresh + 1; cells = update h.cells h.fresh new_cell },
)

-- The methods, each as one undisturbed call on the cell. `Window` has their atomic steps.
unfoldable pub is_open : FlowCell → Bool
is_open c = is_open_flow c.state

unfoldable pub mark_open : FlowCell → FlowCell
mark_open c = if is_opening c.state then record c { state = open_flow } else c

unfoldable pub mark_closed : FlowCell → FlowCell
mark_closed c = record c { state = closed }

unfoldable pub take_context_slot : FlowCell → Bool × FlowCell
take_context_slot c =
    if is_opening c.state
    then (if leb c.context_left 1
        then (true, record c { state = open_flow; context_left = 0 })
        else (true, record c { context_left = c.context_left - 1 }))
    else (false, c)

unfoldable pub rearm_context : FlowCell → FlowCell
rearm_context c = if is_closed c.state then c else record c {
  state = if is_open_flow c.state then opening else c.state;
  context_left = context_repeats;
}

unfoldable pub set_reply_src : SocketAddr → FlowCell → FlowCell
set_reply_src src c = record c { reply_src = some src; reply_src_acked = false }

unfoldable pub mark_reply_src_acked : FlowCell → FlowCell
mark_reply_src_acked c = record c { reply_src_acked = true }

unfoldable pub set_resolved : List SocketAddr → FlowCell → FlowCell
set_resolved addrs c = record c { resolved = addrs }

abbrev pub resolved_first : FlowCell → Option SocketAddr
resolved_first c = elim c.resolved [ [] ↦ none | a ∷ more ↦ some a ]

abbrev pub resolved_len : FlowCell → ℕ
resolved_len c = length c.resolved

abbrev pub target_ip : FlowBinding → Option SocketAddr
target_ip b = elim b.target [ ip a ↦ some a | domain d p ↦ none ]

-- `==` on addresses.
pub bytes_eq : Bytes → Bytes → Bool
bytes_eq [] [] = true
bytes_eq [] (y ∷ ys) = false
bytes_eq (x ∷ xs) [] = false
bytes_eq (x ∷ xs) (y ∷ ys) = x == y && bytes_eq xs ys

unfoldable pub ip_of_eq : SocketAddr → SocketAddr → Bool
unfolding bytes_eq
ip_of_eq (v4 a p) (v4 b q) = bytes_eq a b
ip_of_eq (v6 a p f s) (v6 b q g t) = bytes_eq a b
ip_of_eq _ _ = false

unfoldable pub socket_eq : SocketAddr → SocketAddr → Bool
unfolding bytes_eq
socket_eq (v4 a p) (v4 b q) = p == q && bytes_eq a b
socket_eq (v6 a p f s) (v6 b q g t) = p == q && (f == g && (s == t && bytes_eq a b))
socket_eq _ _ = false

unfoldable pub target_eq : TargetAddrRef → TargetAddrRef → Bool
unfolding bytes_eq socket_eq
target_eq (ip a) (ip b) = socket_eq a b
target_eq (domain d p) (domain e q) = p == q && bytes_eq d e
target_eq _ _ = false

pub bytes_eq→eq : (a b : Bytes) → bytes_eq a b ≡ true → a ≡ b
unfolding bytes_eq
bytes_eq→eq [] [] e = refl
bytes_eq→eq [] (y ∷ ys) e = cc
bytes_eq→eq (x ∷ xs) [] e = cc
bytes_eq→eq (x ∷ xs) (y ∷ ys) e = ground (arith, bytes_eq→eq xs ys)

pub bytes_eq_refl : (a : Bytes) → bytes_eq a a ≡ true
unfolding bytes_eq
bytes_eq_refl [] = refl
bytes_eq_refl (x ∷ xs) = ground (arith, bytes_eq_refl xs)

pub target_eq_refl : (a : TargetAddrRef) → target_eq a a ≡ true
unfolding target_eq socket_eq
target_eq_refl (ip (v4 a p)) = ground (arith, bytes_eq_refl a)
target_eq_refl (ip (v6 a p f s)) = ground (arith, bytes_eq_refl a)
target_eq_refl (domain d p) = ground (arith, bytes_eq_refl d)

pub target_eq→eq : (a b : TargetAddrRef) → target_eq a b ≡ true → a ≡ b
unfolding target_eq socket_eq
target_eq→eq (ip (v4 a p)) (ip (v4 b q)) e = ground (arith, bytes_eq→eq a b)
target_eq→eq (ip (v6 a p f s)) (ip (v6 b q g t)) e = ground (arith, bytes_eq→eq a b)
target_eq→eq (domain d p) (domain d' q) e = ground (arith, bytes_eq→eq d d')
target_eq→eq (ip (v4 a p)) (ip (v6 b q g t)) e = cc
target_eq→eq (ip (v6 a p f s)) (ip (v4 b q)) e = cc
target_eq→eq (ip (v4 a p)) (domain d q) e = cc
target_eq→eq (ip (v6 a p f s)) (domain d q) e = cc
target_eq→eq (domain d p) (ip (v4 b q)) e = cc
target_eq→eq (domain d p) (ip (v6 b q g t)) e = cc
