-- ===== src/Mqp/R3/Train/Decode.antt =====
-- src/mqp/r3.rs: `decode_train`, its loops as functions of the rounds left.
use my_quic.Common.{
  ℕ, zero, suc, ◌+◌, ◌/◌, not, ◌&&◌, ◌||◌, List, [], ◌∷◌, ◌++◌, leb, ltb, ◌==◌, if◌then◌else◌,
  length, drop, get_elem?, bit_and,
}
use my_quic.Common.Bytes.{Bytes, checked_add, checked_mul}
use my_quic.Mqp.Error.{malformed, Result, ok, err, ok_or, guard, ◌>>=◌, ◌>>◌}
use my_quic.Mqp.R3.Frame.{
  class_mask, class_train, train_form_same, train_form_same_equal, train_form_dict, train_form_mask,
  train_reserved_mask,
}
use my_quic.Mqp.R3.Fid.{valid_fid}
use my_quic.Mqp.R3.Field.{get_u16, get_item_len, valid_train_count}
use my_quic.Mqp.R3.Train.{TrainFrame}
use my_quic.Mqp.R3.Train.Encode.{contains}

-- One sized item of the walk: the offset behind it.
unfoldable pub walk_item : Bytes → ℕ → Result ℕ
walk_item b p = do
  (len, p₁) ← get_item_len b p
  end ← ok_or (checked_add p₁ len) (malformed "r3 train item overflow")
  guard (leb end (length b)) (malformed "bad r3 train item length")
  ok end

unfoldable pub walk_same : ℕ → Bytes → ℕ → Result ℕ
walk_same zero b p = ok p
walk_same (suc n) b p = do end ← walk_item b p; walk_same n b end

unfoldable pub walk_dict : ℕ → ℕ → Bytes → ℕ → Result ℕ
walk_dict zero nfl b p = ok p
walk_dict (suc n) nfl b p = do
  idx ← ok_or (get_elem? b p) (malformed "short r3 train item")
  guard (ltb idx nfl) (malformed "bad r3 train item fid")
  end ← walk_item b (p + 1)
  walk_dict n nfl b end

-- The dictionary: `flows` holds the ids read so far.
unfoldable pub read_flows : ℕ → Bytes → ℕ → List ℕ → Result (List ℕ × ℕ)
read_flows zero b off flows = ok (flows, off)
read_flows (suc n) b off flows = do
  (fid, off₁) ← get_u16 b off
  guard (valid_fid fid && not (contains flows fid)) (malformed "bad r3 train dict fid")
  read_flows n b off₁ (flows ++ fid ∷ [])

-- The shared length of `SAME_EQUAL`, and the offset of the payloads.
unfoldable pub equal_body : Bytes → ℕ → ℕ → Result (ℕ × ℕ)
equal_body b count off = do
  (n, off₁) ← get_item_len b off
  body ← ok_or (checked_mul count n) (malformed "r3 train items overflow")
  end ← ok_or (checked_add off₁ body) (malformed "r3 train items overflow")
  guard (leb end (length b)) (malformed "bad r3 train item length")
  guard (end == length b) (malformed "r3 train trailing bytes")
  ok (n, off₁)

unfoldable pub same_body : Bytes → ℕ → ℕ → Result (ℕ × ℕ)
same_body b count off = do
  p ← walk_same count b off
  guard (p == length b) (malformed "r3 train trailing bytes")
  ok (0, off)

unfoldable pub decode_train_flow : Bytes → ℕ → Result TrainFrame
decode_train_flow b form = do
  (fid, off) ← get_u16 b 1
  guard (valid_fid fid) (malformed "bad r3 train fid")
  count ← ok_or (get_elem? b off) (malformed "short r3 train count")
  guard (valid_train_count count) (malformed "bad r3 train count")
  (item_len, off₁) ←
      if form == train_form_same_equal
      then equal_body b count (off + 1)
      else same_body b count (off + 1)
  ok (record {
    form = form;
    count = count;
    nfl = 1;
    item_len = item_len;
    flows = fid ∷ [];
    items = drop off₁ b;
  })

unfoldable pub decode_train_dict : Bytes → ℕ → Result TrainFrame
decode_train_dict b form = do
  nfl ← ok_or (get_elem? b 1) (malformed "short r3 train nfl")
  count ← ok_or (get_elem? b 2) (malformed "short r3 train count")
  guard (valid_train_count count) (malformed "bad r3 train count")
  guard (not (nfl == 0 || ltb count nfl)) (malformed "bad r3 train nfl")
  (flows, items_start) ← read_flows nfl b 3 []
  p ← walk_dict count nfl b items_start
  guard (p == length b) (malformed "r3 train trailing bytes")
  ok (record {
    form = form;
    count = count;
    nfl = nfl;
    item_len = 0;
    flows = flows;
    items = drop items_start b;
  })

unfoldable pub decode_train : Bytes → Result TrainFrame
decode_train b = do
  b0 ← ok_or (get_elem? b 0) (malformed "empty r3 frame")
  guard (bit_and b0 class_mask == class_train) (malformed "bad r3 train kind")
  guard (bit_and b0 train_reserved_mask == 0) (malformed "bad r3 train reserved")
  let form = bit_and b0 train_form_mask / 16
  if form == train_form_same || form == train_form_same_equal
      then decode_train_flow b form
      else if form == train_form_dict
      then decode_train_dict b form
      else err (malformed "bad r3 train form")
