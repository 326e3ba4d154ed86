-- ===== src/Udp/Partial.antt =====
-- src/udp/r2_reasm.rs, `Partial`: one payload that waits for its remaining chunks. The 64-bit mask of
-- landed chunks is the list of its bits, lowest first. What the allocator decides, the size of a type
-- and the capacity that a vector grows to, is a parameter.
pub mod Lists
pub mod Sent
pub mod Fits
pub mod Arrive
pub mod Drain
pub mod Land
pub mod Weight
pub mod Bounded
use my_quic.Common.{
  ℕ, zero, suc, ◌+◌, ◌-◌, ◌*◌, Bool, true, false, not, ◌&&◌, Option, none, some, List, [], ◌∷◌,
  ◌++◌, leb, ltb, ◌==◌, ◌!=◌, if◌then◌else◌, length, get_elem?, take, drop, replicate,
}
use Prim.Native.Nat.{min}
use my_quic.Common.Bytes.{Bytes, checked_add, checked_mul}
use my_quic.Common.Opt.{◌>>=◌}
use my_quic.Mqp.Addr.{TargetAddrRef}
use my_quic.Mqp.Fragment.{mqp_frag_max_payload}
use my_quic.Udp.Frag.{saturating_add, saturating_mul}

-- The sizes of `Partial`, `PendingChunk` and an `order` slot, and the capacity that a byte vector and
-- a slot vector of the given capacity get when they must hold the given length.
pub record Layout : Type 0 where
  pub partial_size : ℕ
  pub pending_size : ℕ
  pub order_slot_bytes : ℕ
  pub grow_bytes : ℕ → ℕ → ℕ
  pub grow_slots : ℕ → ℕ → ℕ

abbrev pub fit : (ℕ → ℕ → ℕ) → ℕ → ℕ → ℕ
fit grow cap needed = if leb needed cap then cap else grow cap needed

pub record FragCtx : Type 0 where
  pub sess : ℕ
  pub addr : TargetAddrRef
  pub src : Bool

pub record PendingChunk : Type 0 where
  pub idx : ℕ
  pub bytes : Bytes

pub record Partial : Type 0 where
  pub total : ℕ
  pub ctx : Option FragCtx
  pub buf : Bytes
  pub buf_cap : ℕ
  pub got : List Bool
  pub first_len : Option ℕ
  pub unit : Option ℕ
  pub pending : List PendingChunk
  pub pending_cap : ℕ
  pub bytes : ℕ
  pub retained : ℕ
  pub first_ms : ℕ

abbrev pub pending_chunk_cost : ℕ
pending_chunk_cost = 48

unfoldable pub pending_charge : Layout → ℕ → ℕ → ℕ → ℕ
pending_charge l pending_len pending_cap n =
    let next = if pending_cap == 0 then 4 else saturating_mul pending_cap 2 in
    let slots = if ltb pending_len pending_cap then 0 else saturating_mul next l.pending_size in
    saturating_add (saturating_add n pending_chunk_cost) slots

unfoldable pub new : ℕ → Option FragCtx → ℕ → Partial
new total ctx now_ms = record {
  total = total;
  ctx = ctx;
  buf = [];
  buf_cap = 0;
  got = replicate 64 false;
  first_len = none;
  unit = none;
  pending = [];
  pending_cap = 0;
  bytes = 0;
  retained = 0;
  first_ms = now_ms;
}

-- The bit of the mask at an index, and the mask with that bit set.
abbrev pub bit : List Bool → ℕ → Bool
bit [] i = false
bit (b ∷ bs) zero = b
bit (b ∷ bs) (suc i) = bit bs i

abbrev pub set_bit : List Bool → ℕ → List Bool
set_bit [] i = []
set_bit (b ∷ bs) zero = true ∷ bs
set_bit (b ∷ bs) (suc i) = b ∷ set_bit bs i

-- The mask of the first bits, out of `width`.
unfoldable pub ones : ℕ → ℕ → List Bool
ones zero n = []
ones (suc width) zero = false ∷ ones width zero
ones (suc width) (suc n) = true ∷ ones width n

abbrev pub bits_eq : List Bool → List Bool → Bool
bits_eq [] [] = true
bits_eq (true ∷ bs) (true ∷ cs) = bits_eq bs cs
bits_eq (false ∷ bs) (false ∷ cs) = bits_eq bs cs
bits_eq _ _ = false

unfoldable pub pos_of : Option ℕ → Option ℕ → ℕ → Option ℕ
pos_of first_len unit idx = if idx == 0 then some 0 else do
  head ← first_len
  step ← if idx - 1 == 0 then some 0 else unit
  ahead ← checked_mul (idx - 1) step
  checked_add head ahead

-- `resize` with zeros, which here never cuts.
unfoldable pub resized : Bytes → ℕ → Bytes
resized buf end = buf ++ replicate (end - length buf) 0

-- The bytes with `chunk` at `pos`: an append at the end, or a copy into the resized bytes.
unfoldable pub written : Bytes → ℕ → Bytes → Bytes
unfolding resized
written buf pos chunk =
    if pos == length buf
    then buf ++ chunk
    else (let wide = resized buf (pos + length chunk) in
        take pos wide ++ (chunk ++ drop (pos + length chunk) wide))

unfoldable pub buf_write : Bytes → ℕ → Bytes → Bool × Bytes
unfolding written
buf_write buf pos chunk = elim (checked_add pos (length chunk)) [
  | none ↦ (false, buf)
  | some end ↦ if ltb mqp_frag_max_payload end then (false, buf) else (true, written buf pos chunk)
]

-- The list without its last element, and that element; `x` stands before the list.
abbrev pub last_of {ℓ} : {A : Type ℓ} → A → List A → A
last_of x [] = x
last_of x (y ∷ ys) = last_of y ys

abbrev pub init_of {ℓ} : {A : Type ℓ} → A → List A → List A
init_of x [] = []
init_of x (y ∷ ys) = x ∷ init_of y ys

-- `swap_remove`: the last element takes the removed one's place.
unfoldable pub swap_remove {ℓ} : {A : Type ℓ} → ℕ → List A → List A
swap_remove i [] = []
swap_remove zero (x ∷ []) = []
swap_remove zero (x ∷ y ∷ ys) = last_of y ys ∷ init_of y ys
swap_remove (suc i) (x ∷ xs) = x ∷ swap_remove i xs

-- A write of the vector, with the capacity that it leaves.
abbrev pub put_bytes : Layout → ℕ → Bytes → Partial → Partial
put_bytes l pos chunk p =
    let buf = (buf_write p.buf pos chunk).1 in
    record p { buf = buf; buf_cap = fit l.grow_bytes p.buf_cap (length buf) }

-- `end.is_some_and(|end| end <= MQP_FRAG_MAX_PAYLOAD)`.
abbrev pub fits_payload : ℕ → ℕ → Bool
fits_payload pos n = elim (checked_add pos n) [
  | none ↦ false
  | some end ↦ leb end mqp_frag_max_payload
]

-- Whether the loop places the chunk, and where.
unfoldable pub placement : Partial → PendingChunk → Option ℕ
unfolding pos_of
placement p c = elim (pos_of p.first_len p.unit c.idx) [
  | none ↦ none
  | some pos ↦ if fits_payload pos (length c.bytes) then some pos else none
]

-- The loop from index `i` on; it ends when the fuel, the number of chunks not looked at, is spent.
unfoldable pub drain_from : Layout → ℕ → ℕ → Partial → Partial
unfolding placement buf_write swap_remove
drain_from l zero i p = p
drain_from l (suc fuel) i p = elim (get_elem? p.pending i) [
  | none ↦ p
  | some c ↦ elim (placement p c) [
    | none ↦ drain_from l fuel (i + 1) p
    | some pos ↦
        drain_from l fuel i
          (put_bytes l pos c.bytes (record p { pending = swap_remove i p.pending }))
  ]
]

unfoldable pub drain_pending : Layout → Partial → Partial
unfolding drain_from
drain_pending l p = drain_from l (length p.pending) 0 p

abbrev pub pending_cost : List PendingChunk → ℕ
pending_cost [] = 0
pending_cost (c ∷ cs) = length c.bytes + pending_chunk_cost + pending_cost cs

unfoldable pub recompute_retained : Layout → Partial → Partial
recompute_retained l p = record p {
  retained = p.buf_cap + (pending_cost p.pending + p.pending_cap * l.pending_size) + l.partial_size;
}

-- Whether a fragment is neither the first nor the last; the last index is computed in `u8`.
abbrev pub is_middle : ℕ → ℕ → Bool
is_middle total idx = leb 1 idx && idx != total - 1

abbrev pub first_after : ℕ → ℕ → Partial → Option ℕ
first_after idx n p = if idx == 0 then some n else p.first_len

abbrev pub or_width : ℕ → Option ℕ → Option ℕ
or_width n none = some n
or_width n (some w) = some w

abbrev pub unit_after : ℕ → ℕ → ℕ → Partial → Option ℕ
unit_after total idx n p = if is_middle total idx then or_width n p.unit else p.unit

abbrev pub option_eq : Option ℕ → Option ℕ → Bool
option_eq none none = true
option_eq (some a) (some b) = a == b
option_eq _ _ = false

-- `reserve` before the first write.
abbrev pub reserved : Layout → ℕ → Partial → Partial
reserved l n p = record p {
  buf_cap =
      if p.buf_cap == 0
      then fit l.grow_bytes p.buf_cap (length p.buf + min (p.total * n) mqp_frag_max_payload)
      else p.buf_cap;
}

-- The chunk in its place, or queued.
abbrev pub store_chunk : Layout → ℕ → Bytes → Option ℕ → Partial → Partial
store_chunk l idx chunk none p = record p {
  pending = p.pending ++ record { idx = idx; bytes = chunk } ∷ [];
  pending_cap = fit l.grow_slots p.pending_cap (length p.pending + 1);
}
store_chunk l idx chunk (some pos) p = put_bytes l pos chunk (reserved l (length chunk) p)

-- What the fragment itself changes, and then the queued chunks that it unlocks.
unfoldable pub arrived : ℕ → Bytes → Partial → Partial
arrived idx chunk p = record p {
  bytes = p.bytes + length chunk;
  first_len = first_after idx (length chunk) p;
  unit = unit_after p.total idx (length chunk) p;
  got = set_bit p.got idx;
}

unfoldable pub land : Layout → ℕ → Bytes → Option ℕ → Partial → Partial
unfolding arrived drain_pending buf_write recompute_retained
land l idx chunk pos p =
    let stored = store_chunk l idx chunk pos (arrived idx chunk p) in
    let same = option_eq stored.first_len p.first_len && option_eq stored.unit p.unit in
    recompute_retained l (if same then stored else drain_pending l stored)

-- `checked_shl` by 64 gives the mask of all ones.
unfoldable pub is_complete : Partial → Bool
unfolding ones
is_complete p = bits_eq p.got (ones 64 p.total)
