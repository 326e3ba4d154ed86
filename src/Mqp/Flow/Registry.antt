-- ===== src/Mqp/Flow/Registry.antt =====
-- src/mqp/r2_flow.rs: `FlowRegistry`, the live bindings of one connection with their two indexes.
-- Each operation is one step: the locks it takes are held as if together.
pub mod Tally
pub mod Purge
pub mod Retain
pub mod Sync
pub mod Invariant
pub mod Reap
pub mod Batch
pub mod Open
pub mod Steps
pub mod Sound
pub mod Probe
use my_quic.Common.{
  ℕ, zero, suc, ◌+◌, ◌-◌, ◌%◌, ◌^◌, Bool, true, false, ◌&&◌, Option, none, some, List, [], ◌∷◌,
  ◌++◌, ◌==◌, ltb, leb, if◌then◌else◌, length,
}
use my_quic.Common.Assoc.{lookup, erase}
use my_quic.Mqp.Addr.{TargetAddrRef}
use my_quic.Mqp.R2.{wire_id_server_owned}
use my_quic.Mqp.Wire.{Wire, rev2, rev3, max_r3_local_id, alloc_wire_id}
use my_quic.Mqp.Flow.Ids.{FlowIds, allocated}
use my_quic.Mqp.Flow.Binding.{
  FlowBinding, Store, cell_of, write, mark_closed, new_shared, target_eq,
}

pub data RegistryError : Type 0 where
  full conflict : RegistryError

pub data Result {ℓ} (A : Type ℓ) : Type ℓ where
  ok : A → Result A
  err : RegistryError → Result A

abbrev pub Bindings : Type 0
Bindings = List (ℕ × FlowBinding)

abbrev pub Sessions : Type 0
Sessions = List (ℕ × List ℕ)

pub record FlowRegistry : Type 0 where
  pub cap : ℕ
  pub map : Bindings
  pub by_session : Sessions
  pub server_flow_count : ℕ

unfoldable pub new : ℕ → FlowRegistry
new cap = record { cap = cap; map = []; by_session = []; server_flow_count = 0 }

-- `fetch_add(1)` and `fetch_sub(1)` on a 64-bit `AtomicUsize`.
abbrev pub fetch_add : ℕ → ℕ
fetch_add n = (n + 1) % 2 ^ 64

abbrev pub fetch_sub : ℕ → ℕ
fetch_sub n = (n + 2 ^ 64 - 1) % 2 ^ 64

-- `entry(s).or_default().push(id)`.
unfoldable pub push_id : ℕ → ℕ → Sessions → Sessions
push_id s id [] = (s, id ∷ []) ∷ []
push_id s id ((t, ids) ∷ m) = if t == s then (t, ids ++ id ∷ []) ∷ m else (t, ids) ∷ push_id s id m

unfoldable pub index_binding : FlowBinding → FlowRegistry → FlowRegistry
index_binding b r = record r {
  by_session = push_id b.session b.wire_id r.by_session;
  server_flow_count =
      if wire_id_server_owned b.wire_id then fetch_add r.server_flow_count else r.server_flow_count;
}

unfoldable pub position : ℕ → List ℕ → Option ℕ
position id [] = none
position id (x ∷ xs) =
    if x == id then some 0 else elim (position id xs) [ none ↦ none | some n ↦ some (suc n) ]

-- The last element, and those before it.
unfoldable pub unsnoc : ℕ → List ℕ → ℕ × List ℕ
unsnoc x [] = (x, [])
unsnoc x (y ∷ ys) = let (last, init) = unsnoc y ys in (last, x ∷ init)

-- The last element takes the place of the one removed.
unfoldable pub swap_remove : ℕ → List ℕ → List ℕ
swap_remove n [] = []
swap_remove zero (x ∷ []) = []
swap_remove zero (x ∷ y ∷ ys) = let (last, init) = unsnoc y ys in last ∷ init
swap_remove (suc n) (x ∷ xs) = x ∷ swap_remove n xs

unfoldable pub without_id : ℕ → List ℕ → List ℕ
unfolding position swap_remove
without_id id ids = elim (position id ids) [ none ↦ ids | some pos ↦ swap_remove pos ids ]

-- A list left empty goes with its key.
abbrev pub put_back : ℕ → List ℕ → Sessions → Sessions
put_back s [] m = m
put_back s (x ∷ xs) m = (s, x ∷ xs) ∷ m

unfoldable pub drop_id : ℕ → ℕ → Sessions → Sessions
drop_id s id [] = []
drop_id s id ((t, ids) ∷ m) =
    if t == s then put_back t (without_id id ids) m else (t, ids) ∷ drop_id s id m

unfoldable pub unindex_binding : FlowBinding → FlowRegistry → FlowRegistry
unindex_binding b r = record r {
  by_session = drop_id b.session b.wire_id r.by_session;
  server_flow_count =
      if wire_id_server_owned b.wire_id then fetch_sub r.server_flow_count else r.server_flow_count;
}

abbrev pub len : FlowRegistry → ℕ
len r = length r.map

abbrev pub has_capacity : FlowRegistry → Bool
has_capacity r = ltb (length r.map) r.cap

abbrev pub same_flow : FlowBinding → FlowBinding → Bool
same_flow a b = a.session == b.session && target_eq a.target b.target

abbrev pub add : FlowBinding → FlowRegistry → FlowRegistry
add b r = index_binding b (record r { map = (b.wire_id, b) ∷ r.map })

unfoldable pub insert : FlowBinding → FlowRegistry → Result FlowBinding × FlowRegistry
unfolding lookup
insert b r = elim (lookup b.wire_id r.map) [
  | some existing ↦ if same_flow existing b then (ok existing, r) else (err conflict, r)
  | none ↦ if leb r.cap (length r.map) then (err full, r) else (ok b, add b r)
]

-- A binding and its table, the allocator and the atomics.
pub record World : Type 0 where
  pub reg : FlowRegistry
  pub ids : FlowIds
  pub store : Store

-- The tail of `insert_new_for`: the new binding `b` goes into the table.
unfoldable pub install : FlowBinding → World → Result FlowBinding × World
unfolding lookup
install b w = elim (lookup b.wire_id w.reg.map) [
  | some existing ↦ if same_flow existing b then (ok existing, w) else (err conflict, w)
  | none ↦ (ok b, record w { reg = add b w.reg })
]

-- `wire == Rev3 && ids.allocated() >= MAX_R3_LOCAL_ID`.
abbrev pub fids_spent : Wire → FlowIds → Bool
fids_spent rev2 ids = false
fids_spent rev3 ids = leb max_r3_local_id (allocated ids)

-- From the allocation on.
unfoldable pub install_id :
    ℕ → TargetAddrRef → World → Option ℕ × FlowIds → Result FlowBinding × World
install_id session target w (none, ids) = (err full, record w { ids = ids })
install_id session target w (some wire_id, ids) =
    let (b, h) = new_shared wire_id session target w.store in
    install b (record w { ids = ids; store = h })

unfoldable pub insert_new_for : Wire → ℕ → TargetAddrRef → World → Result FlowBinding × World
insert_new_for wire session target w =
    if leb w.reg.cap (length w.reg.map)
    then (err full, w)
    else if fids_spent wire w.ids
    then (err full, w)
    else install_id session target w (alloc_wire_id w.ids wire)

abbrev pub insert_new : ℕ → TargetAddrRef → World → Result FlowBinding × World
insert_new = insert_new_for rev2

abbrev pub get : FlowRegistry → ℕ → Option FlowBinding
get r wire_id = lookup wire_id r.map

-- The slot that came with each id is overwritten.
unfoldable pub get_batch :
    FlowRegistry → List (ℕ × Option FlowBinding) → List (ℕ × Option FlowBinding)
get_batch r [] = []
get_batch r ((wire_id, slot) ∷ ids) = (wire_id, lookup wire_id r.map) ∷ get_batch r ids

-- A server-owned binding of the session and target, in the order of the list.
unfoldable pub scan_server_flow : ℕ → TargetAddrRef → Bindings → Option FlowBinding
scan_server_flow s a [] = none
scan_server_flow s a ((k, b) ∷ m) =
    if wire_id_server_owned b.wire_id && (b.session == s && target_eq b.target a)
    then some b
    else scan_server_flow s a m

unfoldable pub find_server_flow : ℕ → TargetAddrRef → FlowRegistry → Option FlowBinding
unfolding scan_server_flow
find_server_flow s a r = if r.server_flow_count == 0 then none else scan_server_flow s a r.map

unfoldable pub remove : ℕ → FlowRegistry → Option FlowBinding × FlowRegistry
unfolding lookup erase unindex_binding
remove wire_id r = elim (lookup wire_id r.map) [
  | none ↦ (none, r)
  | some b ↦ (some b, unindex_binding b (record r { map = erase wire_id r.map }))
]

unfoldable pub clear : FlowRegistry → ℕ × FlowRegistry
clear r = (length r.map, record r { map = []; by_session = []; server_flow_count = 0 })
