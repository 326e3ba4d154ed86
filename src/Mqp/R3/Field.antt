-- ===== src/Mqp/R3/Field.antt =====
-- src/mqp/r3.rs, the fixed-width helpers: every multi-byte integer is little-endian.
pub mod Laws
pub mod Invert
use my_quic.Common.{
  ℕ, ◌+◌, ◌≤◌, Bool, true, false, ◌&&◌, Option, none, some, [], ◌∷◌, ◌++◌, ltb, leb, ◌==◌, ◌!=◌,
  if◌then◌else◌, replicate, get_elem?, bit_and, String,
}
use my_quic.Common.Bytes.{Bytes, checked_add, get_range, from_le, u16_le}
use my_quic.Mqp.Error.{malformed, Result, ok, err, ok_or, guard, ◌>>=◌, ◌>>◌}
use my_quic.Mqp.Addr.{AddrHeader, encode_into}
use my_quic.Mqp.R3.Frame.{ext_reserved_mask, ext_flags_mask, max_train_items}

-- A reader returns the value and the offset behind it.
unfoldable pub get_u16 : Bytes → ℕ → Result (ℕ × ℕ)
get_u16 b off = do
  end ← ok_or (checked_add off 2) (malformed "r3 u16 offset overflow")
  s ← ok_or (get_range b off end) (malformed "truncated r3 u16")
  ok (from_le s, end)

unfoldable pub get_u32 : Bytes → ℕ → Result (ℕ × ℕ)
get_u32 b off = do
  end ← ok_or (checked_add off 4) (malformed "r3 u32 offset overflow")
  s ← ok_or (get_range b off end) (malformed "truncated r3 u32")
  ok (from_le s, end)

-- What `put_addr` appends: `encode_into` on a zeroed tail of the header's length.
unfoldable pub put_addr : AddrHeader → Bytes
put_addr h = (encode_into h (replicate h.len 0)).0

abbrev pub ext_flags : ℕ → String → Result ℕ
ext_flags b0 bad_reserved = do
  guard (bit_and b0 ext_reserved_mask == 0) (malformed bad_reserved)
  ok (bit_and b0 ext_flags_mask)

abbrev pub valid_train_count : ℕ → Bool
valid_train_count n = leb 1 n && leb n max_train_items

unfoldable pub item_len_len : ℕ → Option ℕ
item_len_len n = if ltb n 0xFF then some 1 else if leb n 65535 then some 3 else none

-- What `put_item_len` appends, and whether it wrote.
unfoldable pub put_item_len : ℕ → Bytes × Bool
put_item_len n =
    if ltb n 0xFF
    then (n ∷ [], true)
    else if leb n 65535
    then (0xFF ∷ u16_le n, true)
    else ([], false)

unfoldable pub get_item_len : Bytes → ℕ → Result (ℕ × ℕ)
unfolding get_u16
get_item_len b off = do
  first ← ok_or (get_elem? b off) (malformed "truncated r3 train item len")
  if first == 0xFF then get_u16 b (off + 1) else ok (first, off + 1)

unfoldable pub item_len_escape : Bytes → ℕ → Option (ℕ × ℕ)
item_len_escape b off = elim (checked_add off 2) [
  | none ↦ none
  | some end ↦ elim (get_range b off end) [ none ↦ none | some s ↦ some (from_le s, end) ]
]

unfoldable pub item_len_at : Bytes → ℕ → Option (ℕ × ℕ)
unfolding item_len_escape
item_len_at b off = elim (get_elem? b off) [
  | none ↦ none
  | some first ↦ if first == 0xFF then item_len_escape b (off + 1) else some (first, off + 1)
]
