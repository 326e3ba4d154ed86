-- ===== src/Mqp/Flow/Session.antt =====
-- src/mqp/r2_flow.rs: `SessionFlows`, the flows of one session in a fixed table of slots.
pub mod Source
pub mod Slots
use my_quic.Common.{
  ℕ, zero, suc, ◌+◌, ◌≡◌, Bool, true, false, not, ◌&&◌, ◌||◌, Option, none, some, List, [], ◌∷◌,
  ◌==◌, if◌then◌else◌, replicate,
}
use my_quic.Mqp.Addr.{SocketAddr, TargetAddrRef, ip, domain}
use my_quic.Mqp.Flow.Binding.{
  FlowBinding, FlowCell, Store, cell_of, is_closed, ip_of_eq, socket_eq, target_eq,
}

abbrev pub max_flows_per_session : ℕ
max_flows_per_session = 64

abbrev pub Slot : Type 0
Slot = Option FlowBinding

pub record SessionFlows : Type 0 where
  pub entries : List Slot

abbrev pub new : SessionFlows
new = record { entries = replicate max_flows_per_session none }

-- A match of a reply source: to compress now, or after one binding frame.
pub data SourceMatch : Type 0 where
  exact rebind : FlowBinding → SourceMatch

-- `iter().flatten().find(test)`.
unfoldable pub find_binding : (FlowBinding → Bool) → List Slot → Slot
find_binding test [] = none
find_binding test (none ∷ es) = find_binding test es
find_binding test (some b ∷ es) = if test b then some b else find_binding test es

unfoldable pub occupied : List Slot → ℕ
occupied [] = 0
occupied (none ∷ es) = occupied es
occupied (some b ∷ es) = 1 + occupied es

unfoldable pub len : SessionFlows → ℕ
unfolding occupied
len t = occupied t.entries

-- A slot that is empty, or whose binding is closed.
abbrev pub is_vacant : Store → Slot → Bool
is_vacant h none = true
is_vacant h (some b) = is_closed (cell_of h b).state

unfoldable pub any_vacant : Store → List Slot → Bool
any_vacant h [] = false
any_vacant h (e ∷ es) = is_vacant h e || any_vacant h es

unfoldable pub is_full : Store → SessionFlows → Bool
unfolding any_vacant
is_full h t = not (any_vacant h t.entries)

unfoldable pub find : TargetAddrRef → SessionFlows → Slot
unfolding find_binding
find a t = find_binding (λ b. target_eq b.target a) t.entries

unfoldable pub find_id : ℕ → SessionFlows → Slot
unfolding find_binding
find_id wire_id t = find_binding (λ b. b.wire_id == wire_id) t.entries

-- The first vacant slot takes the binding.
unfoldable pub fill : Store → FlowBinding → List Slot → List Slot
fill h b [] = []
fill h b (e ∷ es) = if is_vacant h e then some b ∷ es else e ∷ fill h b es

unfoldable pub insert : Store → FlowBinding → SessionFlows → Bool × SessionFlows
unfolding find_id any_vacant fill
insert h b t = elim (find_id b.wire_id t) [
  | some old ↦ (true, t)
  | none ↦
      if any_vacant h t.entries then (true, record { entries = fill h b t.entries }) else (false, t)
]

-- The first slot with the id is emptied.
unfoldable pub vacate : ℕ → List Slot → List Slot
vacate wire_id [] = []
vacate wire_id (none ∷ es) = none ∷ vacate wire_id es
vacate wire_id (some b ∷ es) =
    if b.wire_id == wire_id then none ∷ es else some b ∷ vacate wire_id es

unfoldable pub remove : ℕ → SessionFlows → Slot × SessionFlows
unfolding find_id vacate
remove wire_id t = (find_id wire_id t, record { entries = vacate wire_id t.entries })

-- What `match_source` asks of a binding.
unfoldable pub is_learned : Store → SocketAddr → FlowBinding → Bool
is_learned h src b = elim (cell_of h b).reply_src [ none ↦ false | some a ↦ socket_eq a src ]

unfoldable pub names_source : SocketAddr → FlowBinding → Bool
names_source src b = elim b.target [ ip a ↦ socket_eq a src | domain d p ↦ false ]

unfoldable pub resolved_contains : SocketAddr → List SocketAddr → Bool
resolved_contains src [] = false
resolved_contains src (a ∷ more) = ip_of_eq a src || resolved_contains src more

unfoldable pub same_ip : Store → SocketAddr → FlowBinding → Bool
unfolding resolved_contains
same_ip h src b = elim b.target [
  | ip a ↦ ip_of_eq a src
  | domain d p ↦ resolved_contains src (cell_of h b).resolved
]

abbrev pub is_acked : Store → FlowBinding → Bool
is_acked h b = (cell_of h b).reply_src_acked

-- `found`, or `b` where the test holds and nothing was found before.
abbrev pub or_else : Slot → Bool → FlowBinding → Slot
or_else (some a) test b = some a
or_else none test b = if test then some b else none

-- After the loop.
abbrev pub conclude : Slot → Slot → Option SourceMatch
conclude (some b) weak = some (exact b)
conclude none (some b) = some (rebind b)
conclude none none = none

-- The loop, with the candidates for the weaker classes.
unfoldable pub scan_source : Store → SocketAddr → Slot → Slot → List Slot → Option SourceMatch
unfolding is_learned names_source same_ip
scan_source h src strong weak [] = conclude strong weak
scan_source h src strong weak (none ∷ es) = scan_source h src strong weak es
scan_source h src strong weak (some b ∷ es) =
    let learned = scan_source h src strong (or_else weak true b) es in
    let other =
      scan_source h src (or_else strong (names_source src b) b) (or_else weak (same_ip h src b) b)
        es in
    if is_learned h src b
    then (if is_acked h b || names_source src b then some (exact b) else learned)
    else other

unfoldable pub match_source : Store → SocketAddr → SessionFlows → Option SourceMatch
unfolding scan_source
match_source h src t = scan_source h src none none t.entries
