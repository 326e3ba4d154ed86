-- ===== src/Udp/Reasm.antt =====
-- src/udp/r2_reasm.rs, `R2Reassembler`: the partial payloads of a connection, their order of arrival
-- and the bytes that they retain. The hash map is a list of entries; the counters of drops are left
-- out.
pub mod Table
pub mod Taken
pub mod Intact
pub mod Deliver
pub mod Accept
pub mod Live
pub mod Lands
pub mod Once
pub mod Account
use my_quic.Common.{
  ℕ, zero, suc, ◌+◌, ◌-◌, ◌*◌, Bool, true, false, not, ◌&&◌, ◌||◌, Option, none, some, List, [],
  ◌∷◌, ◌++◌, leb, ltb, ◌==◌, ◌!=◌, if◌then◌else◌, length, drop,
}
use Prim.Native.Nat.{min}
use my_quic.Common.Bytes.{Bytes, checked_add}
use my_quic.Mqp.Addr.{TargetAddrRef}
use my_quic.Mqp.Fragment.{
  mqp_frag_max_payload, mqp_frag_max_total, frag_timeout_ms, frag_max_held_bytes, frag_max_partials,
}
use my_quic.Mqp.Flow.Binding.{target_eq}
use my_quic.Udp.Frag.{saturating_add, saturating_mul}
use my_quic.Udp.Partial
use my_quic.Udp.Partial.{
  Layout, FragCtx, Partial, pending_charge, bit, pos_of, is_middle, first_after, unit_after, land,
  is_complete,
}

pub record FragKey : Type 0 where
  pub inline : Bool
  pub id : ℕ
  pub frag_id : ℕ

pub record R2Assembled : Type 0 where
  pub wire_id : Option ℕ
  pub sess : Option ℕ
  pub addr : Option TargetAddrRef
  pub src : Bool
  pub payload : Bytes

pub record FragIn : Type 0 where
  pub wire_id : Option ℕ
  pub sess : Option ℕ
  pub addr : Option TargetAddrRef
  pub src : Bool
  pub frag_id : ℕ
  pub idx : ℕ
  pub total : ℕ
  pub chunk_off : ℕ
  pub chunk : Bytes

abbrev pub Parts : Type 0
Parts = List (FragKey × Partial)

pub record R2Reassembler : Type 0 where
  pub parts : Parts
  pub order : List (FragKey × ℕ)
  pub held : ℕ
  pub order_bytes : ℕ

abbrev pub new : R2Reassembler
new = record { parts = []; order = []; held = 0; order_bytes = 0 }

abbrev pub bool_eq : Bool → Bool → Bool
bool_eq true true = true
bool_eq false false = true
bool_eq _ _ = false

unfoldable pub key_eq : FragKey → FragKey → Bool
key_eq a b = bool_eq a.inline b.inline && (a.id == b.id && a.frag_id == b.frag_id)

-- `get`, `remove` and the write back through `entry`.
unfoldable pub lookup : FragKey → Parts → Option Partial
lookup k [] = none
lookup k ((j, p) ∷ m) = if key_eq j k then some p else lookup k m

unfoldable pub erase : FragKey → Parts → Parts
erase k [] = []
erase k ((j, p) ∷ m) = if key_eq j k then m else (j, p) ∷ erase k m

unfoldable pub put : FragKey → Partial → Parts → Parts
put k p [] = (k, p) ∷ []
put k p ((j, q) ∷ m) = if key_eq j k then (k, p) ∷ m else (j, q) ∷ put k p m

abbrev pub held_bytes : R2Reassembler → ℕ
held_bytes r = r.held + r.order_bytes

abbrev pub order_slot_limit : ℕ
order_slot_limit = 64

abbrev pub inflight : R2Reassembler → ℕ
inflight r = length r.parts

-- The removal of a live partial, with the bytes that it retained.
abbrev pub release : FragKey → Partial → R2Reassembler → R2Reassembler
release k p r = record r { parts = erase k r.parts; held = r.held - p.retained }

-- Whether a slot names a live partial.
unfoldable pub live_at : FragKey → ℕ → Parts → Option Partial
unfolding lookup
live_at k first_ms m = elim (lookup k m) [
  | none ↦ none
  | some p ↦ if p.first_ms == first_ms then some p else none
]

-- The fallback that removes any entry, once the slots are used up.
unfoldable pub evict_any : Parts → R2Reassembler → Bool × R2Reassembler
unfolding erase
evict_any [] r = (false, record r { order = [] })
evict_any ((k, p) ∷ m) r = (true, release k p (record r { order = [] }))

-- The loop over the slots.
unfoldable pub evict_from : Layout → List (FragKey × ℕ) → R2Reassembler → Bool × R2Reassembler
unfolding live_at erase evict_any
evict_from l [] r = evict_any r.parts r
evict_from l ((k, first_ms) ∷ order) r =
    let r' : R2Reassembler = record r {
      order = order;
      order_bytes = r.order_bytes - l.order_slot_bytes;
    } in
    elim (live_at k first_ms r.parts) [
      | none ↦ evict_from l order r'
      | some p ↦ (true, release k p r')
    ]

abbrev pub evict_oldest : Layout → R2Reassembler → Bool × R2Reassembler
evict_oldest l r = evict_from l r.order r

abbrev pub has_room : ℕ → R2Reassembler → Bool
has_room est r = not (
    leb frag_max_partials (length r.parts)
    || ltb frag_max_held_bytes (saturating_add (held_bytes r) est))

-- The loop that evicts until there is room; an eviction takes one partial out, so as many rounds as
-- there are partials, and one, are enough.
unfoldable pub make_room : Layout → ℕ → ℕ → R2Reassembler → Bool × R2Reassembler
unfolding evict_from
make_room l zero est r = (false, r)
make_room l (suc fuel) est r =
    if has_room est r
    then (true, r)
    else (let (evicted, r') = evict_oldest l r in
        elim evicted [ true ↦ make_room l fuel est r' | false ↦ (false, r') ])

-- `sort_unstable_by_key`: the keys of a slot in the order of the comparison.
abbrev pub bool_rank : Bool → ℕ
bool_rank false = 0
bool_rank true = 1

abbrev pub less : List (ℕ × ℕ) → Bool
less [] = false
less ((a, b) ∷ rest) = ltb a b || (a == b && less rest)

abbrev pub slot_less : FragKey × ℕ → FragKey × ℕ → Bool
slot_less (j, s) (k, t) =
    less (
      (s, t)
      ∷ (bool_rank j.inline, bool_rank k.inline)
      ∷ (j.id, k.id)
      ∷ (j.frag_id, k.frag_id)
      ∷ [])

unfoldable pub insert_slot : FragKey × ℕ → List (FragKey × ℕ) → List (FragKey × ℕ)
insert_slot s [] = s ∷ []
insert_slot s (t ∷ ts) = if slot_less t s then t ∷ insert_slot s ts else s ∷ t ∷ ts

unfoldable pub live_slots : Parts → List (FragKey × ℕ)
unfolding insert_slot
live_slots [] = []
live_slots ((k, p) ∷ m) = insert_slot (k, p.first_ms) (live_slots m)

unfoldable pub prune_orders : Layout → R2Reassembler → R2Reassembler
unfolding live_slots
prune_orders l r =
    if leb (length r.order) (saturating_add (saturating_mul (length r.parts) 2) order_slot_limit)
    then r
    else record r {
      order = live_slots r.parts;
      order_bytes = saturating_mul (length (live_slots r.parts)) l.order_slot_bytes;
    }

-- The test on the shape of a frame, and the caller's contract on the buffer it was decoded from.
unfoldable pub refused_shape : Bytes → FragIn → Bool
refused_shape d f =
    (ltb f.total 1
      || (ltb mqp_frag_max_total f.total || (leb f.total f.idx || length f.chunk == 0)))
    || (ltb mqp_frag_max_payload (length f.chunk)
        || not (Partial.option_eq (checked_add f.chunk_off (length f.chunk)) (some (length d))))

abbrev pub key_from : Option ℕ → Option ℕ → ℕ → Option FragKey
key_from (some id) sess frag_id =
    if id == 0 then none else some (record { inline = false; id = id; frag_id = frag_id })
key_from none (some sess) frag_id = some (record { inline = true; id = sess; frag_id = frag_id })
key_from none none frag_id = none

-- `let key = match ...`.
unfoldable pub key_of : FragIn → Option FragKey
key_of f = key_from f.wire_id f.sess f.frag_id

abbrev pub ctx_from : Option ℕ → Option TargetAddrRef → Bool → Option (Option FragCtx)
ctx_from (some sess) (some addr) src = some (some (record { sess = sess; addr = addr; src = src }))
ctx_from none none src = some none
ctx_from _ _ src = none

-- `let incoming = match ...`; the outer option is the refusal.
unfoldable pub incoming_of : FragIn → Option (Option FragCtx)
incoming_of f = ctx_from f.sess f.addr f.src

abbrev pub sess_of : Option FragCtx → Option ℕ
sess_of none = none
sess_of (some c) = some c.sess

abbrev pub addr_of : Option FragCtx → Option TargetAddrRef
addr_of none = none
addr_of (some c) = some c.addr

abbrev pub src_of : Option FragCtx → Bool → Bool
src_of none src = src
src_of (some c) src = c.src

abbrev pub ctx_eq : FragCtx → FragCtx → Bool
ctx_eq a b = a.sess == b.sess && (target_eq a.addr b.addr && bool_eq a.src b.src)

abbrev pub ctx_conflict : Option FragCtx → Option FragCtx → Bool
ctx_conflict (some old) (some incoming) = not (ctx_eq old incoming)
ctx_conflict _ _ = false

abbrev pub or_ctx : Option FragCtx → Option FragCtx → Option FragCtx
or_ctx none incoming = incoming
or_ctx (some c) incoming = some c

abbrev pub is_some {ℓ} : {A : Type ℓ} → Option A → Bool
is_some none = false
is_some (some a) = true

abbrev pub width_conflict : Option ℕ → ℕ → Bool
width_conflict none n = false
width_conflict (some w) n = not (w == n)

-- What a fragment for a live partial is charged before it is taken.
unfoldable pub charge : Layout → Partial → ℕ → ℕ → ℕ
unfolding pos_of pending_charge
charge l p idx n =
    if is_some (pos_of p.first_len p.unit idx)
    then (let most = if p.buf_cap == 0 then min (p.total * n) mqp_frag_max_payload else 0 in
        if ltb n most then most else n)
    else pending_charge l (length p.pending) p.pending_cap n

-- The tests on a live partial that let a fragment go, in their order: the total, the context, the
-- duplicate, the width, the payload's cap and the budget.
unfoldable pub refused_by : Layout → R2Reassembler → Partial → Option FragCtx → FragIn → Bool
unfolding charge
refused_by l r p incoming f =
    not (p.total == f.total)
    || (ctx_conflict p.ctx incoming
        || (bit p.got f.idx
            || ((is_middle f.total f.idx && width_conflict p.unit (length f.chunk))
                || (ltb mqp_frag_max_payload (saturating_add p.bytes (length f.chunk))
                    || ltb frag_max_held_bytes
                        (saturating_add (held_bytes r) (charge l p f.idx (length f.chunk)))))))

-- The footprint that a new partial is charged.
unfoldable pub estimate : Layout → FragIn → ℕ
unfolding pending_charge
estimate l f =
    let body =
      if f.idx == 0
      then min (f.total * length f.chunk) mqp_frag_max_payload
      else pending_charge l 0 0 (length f.chunk) in
    body + (l.partial_size + l.order_slot_bytes)

-- The position of the fragment once it counts itself, and whether it lies past the payload's cap.
unfoldable pub position : Partial → FragIn → Option ℕ
unfolding pos_of
position p f =
    pos_of (first_after f.idx (length f.chunk) p) (unit_after p.total f.idx (length f.chunk) p)
      f.idx

abbrev pub past_cap : Option ℕ → ℕ → Bool
past_cap none n = false
past_cap (some pos) n = ltb mqp_frag_max_payload (saturating_add pos n)

abbrev pub none_landed : List Bool → Bool
none_landed [] = true
none_landed (b ∷ bs) = not b && none_landed bs

-- The new slot of a new partial.
abbrev pub queue_slot : Layout → Bool → FragKey → ℕ → R2Reassembler → R2Reassembler
queue_slot l false key now_ms r = r
queue_slot l true key now_ms r = record r {
  order = r.order ++ (key, now_ms) ∷ [];
  order_bytes = saturating_add r.order_bytes l.order_slot_bytes;
}

abbrev pub assembled : FragKey → FragIn → Partial → R2Assembled
assembled key f p = record {
  wire_id = if key.inline then none else some key.id;
  sess = sess_of p.ctx;
  addr = addr_of p.ctx;
  src = src_of p.ctx f.src;
  payload = p.buf;
}

-- The delivery of a complete partial.
abbrev pub deliver : FragKey → FragIn → Partial → R2Reassembler → Option R2Assembled × R2Reassembler
deliver key f p r = if is_complete p then (some (assembled key f p), release key p r) else (none, r)

-- The part of `push_frame` from `let completed` on, for the partial `p` that the entry holds.
unfoldable pub take_fragment :
    Layout
    → FragKey
    → Bool
    → FragIn
    → Partial
    → ℕ
    → R2Reassembler
    → Option R2Assembled × R2Reassembler
unfolding position land put erase prune_orders is_complete
take_fragment l key is_new f p now_ms r =
    let pos = position p f in
    if past_cap pos (length f.chunk)
    then (
      none,
      record r { parts = if none_landed p.got then erase key r.parts else put key p r.parts },
    )
    else (let landed = land l f.idx f.chunk pos p in
        let kept : R2Reassembler = record r {
          parts = put key landed r.parts;
          held = saturating_add (r.held - p.retained) landed.retained;
        } in
        deliver key f landed (prune_orders l (queue_slot l is_new key now_ms kept)))

abbrev pub with_ctx : Option FragCtx → Partial → Partial
with_ctx incoming p = record p { ctx = or_ctx p.ctx incoming }

-- The part of `push_frame` for a payload of more than one fragment.
unfoldable pub push_part :
    Layout
    → FragKey
    → Option FragCtx
    → FragIn
    → ℕ
    → R2Reassembler
    → Option R2Assembled × R2Reassembler
unfolding lookup refused_by estimate make_room take_fragment
push_part l key incoming f now_ms r = elim (lookup key r.parts) [
  | some p ↦
      if refused_by l r p incoming f
      then (none, r)
      else take_fragment l key false f (with_ctx incoming p) now_ms r
  | none ↦
      let (fits, r') = make_room l (length r.parts + 1) (estimate l f) r in
      if fits
      then take_fragment l key true f (Partial.new f.total incoming now_ms) now_ms r'
      else (none, r')
]

abbrev pub single : Bytes → FragIn → Option FragCtx → R2Assembled
single d f incoming = record {
  wire_id = f.wire_id;
  sess = sess_of incoming;
  addr = addr_of incoming;
  src = f.src;
  payload = drop f.chunk_off d;
}

unfoldable pub push_frame :
    Layout → Bytes → FragIn → ℕ → R2Reassembler → Option R2Assembled × R2Reassembler
unfolding refused_shape key_of incoming_of push_part
push_frame l d f now_ms r = if refused_shape d f then (none, r) else elim (key_of f) [
  | none ↦ (none, r)
  | some key ↦ elim (incoming_of f) [
    | none ↦ (none, r)
    | some incoming ↦
        if key.inline && not (is_some incoming)
        then (none, r)
        else if f.total == 1
        then (some (single d f incoming), r)
        else push_part l key incoming f now_ms r
  ]
]

-- `retain`: the entries that stay, the bytes that the others retained, and how many they were.
unfoldable pub retain_not : (FragKey → Partial → Bool) → Parts → Parts × ℕ × ℕ
retain_not matches [] = ([], 0, 0)
retain_not matches ((k, p) ∷ m) =
    let (kept, revoked, removed) = retain_not matches m in
    if matches k p
    then (kept, saturating_add revoked p.retained, removed + 1)
    else ((k, p) ∷ kept, revoked, removed)

abbrev pub after_retain : Parts × ℕ × ℕ → R2Reassembler → ℕ × R2Reassembler
after_retain (kept, revoked, removed) r =
    (removed, record r { parts = kept; held = r.held - revoked })

abbrev pub names_session : ℕ → Option FragCtx → Bool
names_session session none = false
names_session session (some c) = c.sess == session

abbrev pub of_session : ℕ → FragKey → Partial → Bool
of_session session k p = names_session session p.ctx || (k.inline && k.id == session)

unfoldable pub drop_session : ℕ → R2Reassembler → ℕ × R2Reassembler
unfolding retain_not
drop_session session r = after_retain (retain_not (of_session session) r.parts) r

abbrev pub of_flow : ℕ → FragKey → Partial → Bool
of_flow wire_id k p = not k.inline && k.id == wire_id

unfoldable pub drop_flow : ℕ → R2Reassembler → ℕ × R2Reassembler
unfolding retain_not
drop_flow wire_id r =
    if wire_id == 0 then (0, r) else after_retain (retain_not (of_flow wire_id) r.parts) r

-- Whether the sweep takes a slot: its partial is gone or replaced, or has timed out.
abbrev pub slot_expired : ℕ → ℕ → Option Partial → Bool
slot_expired now_ms first_ms none = true
slot_expired now_ms first_ms (some p) = leb frag_timeout_ms (now_ms - first_ms)

abbrev pub release_live : FragKey → Option Partial → R2Reassembler → R2Reassembler
release_live k none r = r
release_live k (some p) r = release k p r

-- The loop over the slots from the front.
unfoldable pub expire_from : Layout → ℕ → List (FragKey × ℕ) → R2Reassembler → R2Reassembler
unfolding live_at erase
expire_from l now_ms [] r = r
expire_from l now_ms ((k, first_ms) ∷ order) r =
    elim (slot_expired now_ms first_ms (live_at k first_ms r.parts)) [
      | false ↦ r
      | true ↦ expire_from l now_ms order (
          release_live k (live_at k first_ms r.parts)
            (record r { order = order; order_bytes = r.order_bytes - l.order_slot_bytes }))
    ]

unfoldable pub expire : Layout → ℕ → R2Reassembler → R2Reassembler
unfolding expire_from prune_orders
expire l now_ms r = prune_orders l (expire_from l now_ms r.order r)
