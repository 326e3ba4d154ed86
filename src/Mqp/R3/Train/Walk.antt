-- ===== src/Mqp/R3/Train/Walk.antt =====
-- src/mqp/r3.rs: the decoder's walk and the iterator on one item whose bytes are known.
use my_quic.Common.{ℕ, ◌+◌, ◌^◌, ◌≤◌, ◌<◌, ◌≡◌, refl, sym, some, ◌++◌, arith, le→leb, length, drop}
use my_quic.Common.Bytes.{Bytes, checked_add_ok, get_range_ok, drop_step}
use my_quic.Mqp.Error.{ok}
use my_quic.Mqp.R3.Field.{item_len_len, put_item_len, get_item_len}
use my_quic.Mqp.R3.Field.Laws.{get_item_len-put, item_len_at-get_item_len, length-put_item_len}
use my_quic.Mqp.R3.Train.Decode.{walk_item}
use my_quic.Mqp.R3.Train.Items.{sized_item}

-- A sized payload stands at `off` of a buffer that a `usize` can index.
module _ (b : Bytes) (off : ℕ) (p rest : Bytes) (k : ℕ) (ek : item_len_len (length p) ≡ some k)
    (here : drop off b ≡ (put_item_len (length p)).0 ++ (p ++ rest))
    (fits : off + k + length p ≤ length b) (small : length b < 2 ^ 64) where
  field_read : get_item_len b off ≡ ok (length p, off + k)
  field_read = get_item_len-put b off (length p) k (p ++ rest) ek here (omega arith)

  payload_at : drop (off + k) b ≡ p ++ rest
  payload_at =
      drop_step b off k (put_item_len (length p)).0 (p ++ rest) here
        (sym (length-put_item_len (length p) k ek))

  pub rest_at : drop (off + k + length p) b ≡ rest
  rest_at = drop_step b (off + k) (length p) p rest payload_at refl

  pub walk_item_ok : walk_item b off ≡ ok (off + k + length p)
  unfolding walk_item
  walk_item_ok = rw (
    field_read,
    checked_add_ok (off + k) (length p) (omega arith),
    le→leb (off + k + length p) (length b) fits,
  )

  pub sized_item_ok : sized_item b off ≡ some (p, rest)
  unfolding sized_item
  sized_item_ok = rw (
    item_len_at-get_item_len b off _ field_read,
    checked_add_ok (off + k) (length p) (omega arith),
    get_range_ok b (off + k) (length p) p rest payload_at refl fits,
    rest_at,
  )
