-- ===== src/Dns/Memo.antt =====
-- src/dns/memo.rs: the memo of a thread, 64 sets of two slots. The translation of a deadline into the
-- coarse clock is left out: a store takes the deadline translated.
pub mod Serve
use my_quic.Common.{
  ℕ, ◌+◌, ◌-◌, ◌*◌, ◌/◌, ◌%◌, ◌^◌, bit_and, bit_xor, Bool, true, false, not, ◌&&◌, Option, none,
  some, List, [], ◌∷◌, ◌++◌, ltb, ◌==◌, if◌then◌else◌, length, take, replicate,
}
use my_quic.Common.Bytes.{Bytes, from_le}
use my_quic.Mqp.Addr.{SocketAddr}
use my_quic.Mqp.Flow.Binding.{bytes_eq}

pub record DnsMemoSlot : Type 0 where
  pub hash : ℕ
  pub empty : Bool
  pub addr : Option SocketAddr
  pub len : ℕ
  pub key : Bytes
  pub expires_ms : ℕ
  pub neg_epoch : ℕ

abbrev pub memo_key_bytes : ℕ
memo_key_bytes = 261

abbrev pub memo_sets : ℕ
memo_sets = 64

unfoldable pub empty_slot : DnsMemoSlot
empty_slot = record {
  hash = 0;
  empty = true;
  addr = none;
  len = 0;
  key = replicate memo_key_bytes 0;
  expires_ms = 0;
  neg_epoch = 0;
}

abbrev pub tag : Option SocketAddr → ℕ → ℕ
tag none epoch = epoch
tag (some a) epoch = 0

unfoldable pub new : Bytes → ℕ → Option SocketAddr → ℕ → ℕ → Option DnsMemoSlot
new key hash addr expires_ms neg_epoch =
    if ltb memo_key_bytes (length key)
    then none
    else some (record {
      hash = hash;
      empty = false;
      addr = addr;
      len = length key % 65536;
      key = key ++ replicate (memo_key_bytes - length key) 0;
      expires_ms = expires_ms;
      neg_epoch = tag addr neg_epoch;
    })

unfoldable pub matches : ℕ → Bytes → DnsMemoSlot → Bool
matches hash key s =
    not s.empty && (s.hash == hash && (s.len == length key && bytes_eq (take s.len s.key) key))

-- The two ways of a set, and the table.
pub record Ways : Type 0 where
  pub way0 : DnsMemoSlot
  pub way1 : DnsMemoSlot

abbrev pub Memo : Type 0
Memo = ℕ → Ways

abbrev pub wrapping_mul : ℕ → ℕ → ℕ
wrapping_mul a b = a * b % 2 ^ 64

-- One step of the fold, on the eight bytes of a chunk or the zero-padded tail.
abbrev pub mix : ℕ → ℕ → ℕ
mix h word = wrapping_mul (bit_xor h word) 0x9E3779B97F4A7C15

unfoldable pub fold_chunks : ℕ → Bytes → ℕ
fold_chunks h (a ∷ b ∷ c ∷ d ∷ e ∷ f ∷ g ∷ i ∷ rest) =
    fold_chunks (mix h (from_le (a ∷ b ∷ c ∷ d ∷ e ∷ f ∷ g ∷ i ∷ []))) rest
fold_chunks h [] = h
fold_chunks h rem = mix h (from_le rem)

abbrev pub xor_shift : ℕ → ℕ → ℕ
xor_shift h k = bit_xor h (h / 2 ^ k)

unfoldable pub dns_memo_hash : Bytes → ℕ
unfolding fold_chunks
dns_memo_hash key =
    let h0 = fold_chunks (wrapping_mul (length key) 0x9E3779B97F4A7C15) key in
    let h1 = wrapping_mul (xor_shift h0 30) 0xBF58476D1CE4E5B9 in
    let h2 = wrapping_mul (xor_shift h1 27) 0x94D049BB133111EB in xor_shift h2 31

unfoldable pub dns_memo_set : ℕ → ℕ
dns_memo_set hash = bit_and hash (memo_sets - 1)

pub record MemoHit : Type 0 where
  pub addr : Option SocketAddr
  pub expires_ms : ℕ
  pub neg_epoch : ℕ

abbrev pub Peeked : Type 0
Peeked = Option MemoHit × Option MemoHit

unfoldable pub as_hit : Option SocketAddr → ℕ → ℕ → Peeked
as_hit none expires_ms epoch =
    (none, some (record { addr = none; expires_ms = expires_ms; neg_epoch = epoch }))
as_hit (some a) expires_ms epoch =
    (some (record { addr = some a; expires_ms = expires_ms; neg_epoch = epoch }), none)

-- The loop over the ways of a set.
unfoldable pub peek_ways : ℕ → Bytes → Ways → Peeked
peek_ways hash key w =
    if matches hash key w.way0
    then as_hit w.way0.addr w.way0.expires_ms w.way0.neg_epoch
    else if matches hash key w.way1
    then as_hit w.way1.addr w.way1.expires_ms w.way1.neg_epoch
    else (none, none)

unfoldable pub memo_peek_both : Bytes → Memo → Peeked
memo_peek_both key m = let hash = dns_memo_hash key in peek_ways hash key (m (dns_memo_set hash))

unfoldable pub put_ways : ℕ → Bytes → DnsMemoSlot → Ways → Ways
put_ways hash key slot w =
    if matches hash key w.way0
    then record w { way0 = slot }
    else if matches hash key w.way1
    then record { way0 = slot; way1 = w.way0 }
    else record { way0 = slot; way1 = w.way0 }

abbrev pub with_set : ℕ → Ways → Memo → Memo
with_set set ways m k = if k == set then ways else m k

-- The guard is the expected epoch; `now_epoch` is the epoch read inside the borrow.
abbrev pub guard_passes : Option ℕ → ℕ → Bool
guard_passes none now_epoch = true
guard_passes (some expected) now_epoch = now_epoch == expected

unfoldable pub memo_store : Bytes → Option SocketAddr → ℕ → ℕ → Option ℕ → ℕ → Memo → Bool × Memo
memo_store key addr expires_ms epoch epoch_guard now_epoch m =
    let hash = dns_memo_hash key in
    let set = dns_memo_set hash in
    elim (new key hash addr expires_ms epoch) [
      | none ↦ (false, m)
      | some slot ↦
          if guard_passes epoch_guard now_epoch
          then (true, with_set set (put_ways hash key slot (m set)) m)
          else (false, m)
    ]

-- `probed` is the epoch that the first test reads.
unfoldable pub memo_put_with_epoch : Bytes → Option SocketAddr → ℕ → ℕ → ℕ → ℕ → Memo → Bool × Memo
memo_put_with_epoch key (some a) expires_ms expected probed now_epoch m =
    memo_store key (some a) expires_ms 0 none now_epoch m
memo_put_with_epoch key none expires_ms expected probed now_epoch m =
    if probed == expected
    then memo_store key none expires_ms expected (some expected) now_epoch m
    else (false, m)

unfoldable pub memo_put : Bytes → Option SocketAddr → ℕ → ℕ → Memo → Memo
memo_put key addr expires_ms epoch m =
    (memo_store key addr expires_ms (tag addr epoch) none epoch m).1
