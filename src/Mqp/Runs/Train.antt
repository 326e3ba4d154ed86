-- ===== src/Mqp/Runs/Train.antt =====
-- `TRAIN` frames on concrete bytes.
use my_quic.Common.{ℕ, ◌≤◌, ◌≡◌, refl, All, arith, some, [], ◌∷◌, length, List}
use my_quic.Common.Bytes.{Bytes, get_range}
use my_quic.Mqp.Error.{ok}
use my_quic.Mqp.R3.Field.{item_len_len, put_item_len, get_u16, get_item_len}
use my_quic.Mqp.R3.Train.{TrainFrame}
use my_quic.Mqp.R3.Train.Encode.{
  encode_train_same, train_same_len, same_total, checked_frame, encode_train_same_equal,
  train_same_equal_len, any_other_len, first_len, encode_train_dict, train_dict_len,
  valid_train_flows, fids_ok, idxs_ok, flows_total, items_total,
}
use my_quic.Mqp.R3.Train.Decode.{decode_train, decode_train_flow, same_body, walk_same, walk_item}
use my_quic.Mqp.R3.Train.Items.{items, all_items, Gives}
use my_quic.Mqp.R3.Train.Equal.{encode_train_same_equal-decode_train}
use my_quic.Mqp.R3.Train.Dict.{encode_train_dict-decode_train}
use my_quic.Mqp.R3.Train.Yields.{Delivers}
use my_quic.Mqp.R3.Train.Delivered.{decode_train-Delivers}
use my_quic.Mqp.R3.Train.Writes.{encode_train-writes}
use my_quic.Mqp.R3.Train.Length.{IsSized, AllSized}
use my_quic.Mqp.R3.Train.Encodable.{Encodable}
use my_quic.Mqp.R3.Train.Same.{encode_train_same-decode_train}

abbrev payloads : List Bytes
payloads = (7 ∷ 8 ∷ []) ∷ [] ∷ (9 ∷ []) ∷ []

abbrev same_frame : Bytes
same_frame = 0x80 ∷ 5 ∷ 0 ∷ 3 ∷ 2 ∷ 7 ∷ 8 ∷ 0 ∷ 1 ∷ 9 ∷ []

same : encode_train_same 5 payloads 1472 ≡ some same_frame
unfolding encode_train_same train_same_len same_total checked_frame item_len_len put_item_len
same = refl

encode_train_same-decode_train_example :
    (f : TrainFrame) × (decode_train same_frame ≡ ok f)
    × (all_items f ≡ (5, 7 ∷ 8 ∷ []) ∷ (5, []) ∷ (5, 9 ∷ []) ∷ [])
    × Gives (items f) ((5, 7 ∷ 8 ∷ []) ∷ (5, []) ∷ (5, 9 ∷ []) ∷ [])
    × (length same_frame ≤ 1472)
encode_train_same-decode_train_example =
    encode_train_same-decode_train 5 payloads 1472 same_frame same

abbrev equal_payloads : List Bytes
equal_payloads = (7 ∷ 8 ∷ []) ∷ (9 ∷ 10 ∷ []) ∷ []

abbrev equal_frame : Bytes
equal_frame = 0x90 ∷ 5 ∷ 0 ∷ 2 ∷ 2 ∷ 7 ∷ 8 ∷ 9 ∷ 10 ∷ []

equal : encode_train_same_equal 5 equal_payloads 1472 ≡ some equal_frame
unfolding encode_train_same_equal train_same_equal_len any_other_len first_len checked_frame
    item_len_len put_item_len
equal = refl

encode_train_same_equal-decode_train_example :
    (f : TrainFrame) × (decode_train equal_frame ≡ ok f)
    × (all_items f ≡ (5, 7 ∷ 8 ∷ []) ∷ (5, 9 ∷ 10 ∷ []) ∷ [])
    × Gives (items f) ((5, 7 ∷ 8 ∷ []) ∷ (5, 9 ∷ 10 ∷ []) ∷ [])
    × (length equal_frame ≤ 1472)
encode_train_same_equal-decode_train_example =
    encode_train_same_equal-decode_train 5 equal_payloads 1472 equal_frame equal

abbrev flow_ids : List ℕ
flow_ids = 5 ∷ 0x2001 ∷ []

abbrev indexed : List (ℕ × Bytes)
indexed = (1, 7 ∷ []) ∷ (0, []) ∷ (1, 9 ∷ []) ∷ []

abbrev dict_frame : Bytes
dict_frame = 0xA0 ∷ 2 ∷ 3 ∷ 5 ∷ 0 ∷ 1 ∷ 0x20 ∷ 1 ∷ 1 ∷ 7 ∷ 0 ∷ 0 ∷ 1 ∷ 1 ∷ 9 ∷ []

dict : encode_train_dict flow_ids indexed 1472 ≡ some dict_frame
unfolding encode_train_dict train_dict_len valid_train_flows fids_ok idxs_ok flows_total items_total
    checked_frame item_len_len put_item_len
dict = refl

encode_train_dict-decode_train_example :
    (f : TrainFrame) × (decode_train dict_frame ≡ ok f)
    × (all_items f ≡ (0x2001, 7 ∷ []) ∷ (5, []) ∷ (0x2001, 9 ∷ []) ∷ [])
    × Gives (items f) ((0x2001, 7 ∷ []) ∷ (5, []) ∷ (0x2001, 9 ∷ []) ∷ [])
    × (length dict_frame ≤ 1472)
encode_train_dict-decode_train_example =
    encode_train_dict-decode_train flow_ids indexed 1472 dict_frame dict

abbrev same_train : TrainFrame
same_train = record {
  form = 0;
  count = 3;
  nfl = 1;
  item_len = 0;
  flows = 5 ∷ [];
  items = 2 ∷ 7 ∷ 8 ∷ 0 ∷ 1 ∷ 9 ∷ [];
}

read_same : decode_train same_frame ≡ ok same_train
unfolding decode_train decode_train_flow same_body walk_same walk_item get_u16 get_item_len
    get_range
read_same = refl

decode_train-Delivers_example : Delivers same_train
decode_train-Delivers_example = decode_train-Delivers same_frame same_train read_same

payloads-IsSized : All IsSized payloads
unfolding item_len_len
payloads-IsSized = (
  record { field = 1; field_eq = refl },
  (record { field = 1; field_eq = refl }, (record { field = 1; field_eq = refl }, tt)),
)

indexed-AllSized : AllSized indexed
unfolding item_len_len
indexed-AllSized = (
  record { field = 1; field_eq = refl },
  (record { field = 1; field_eq = refl }, (record { field = 1; field_eq = refl }, tt)),
)

indexed-Encodable : Encodable flow_ids indexed
unfolding fids_ok idxs_ok put_item_len
indexed-Encodable = record {
  count_ok = refl;
  some_flow = omega arith;
  few_flows = omega arith;
  fids = refl;
  idxs = refl;
  sized = indexed-AllSized;
  small = omega arith;
}

encode_train-writes_example :
    (encode_train_same 5 payloads 1472 ≡ some same_frame)
    × (encode_train_dict flow_ids indexed 1472 ≡ some dict_frame)
unfolding put_item_len
encode_train-writes_example =
    encode_train-writes 5 payloads flow_ids indexed 1472 refl refl payloads-IsSized (omega arith)
      indexed-Encodable (omega arith) (omega arith)
