-- ===== src/Mqp/R3/Train/Writes.antt =====
-- src/mqp/r3.rs: the `TRAIN` encoders write every input that fits.
use my_quic.Common.{
  ℕ, ◌+◌, ◌*◌, ◌^◌, ◌≤◌, ◌<◌, ◌≡◌, ap, ◌∙◌, true, some, List, [], ◌∷◌, ◌++◌, arith, le→leb, length,
  length-append, All,
}
use my_quic.Common.Bytes.{Bytes, checked_add_ok, u16_le}
use my_quic.Mqp.R3.Fid.{valid_fid}
use my_quic.Mqp.R3.Field.{valid_train_count}
use my_quic.Mqp.R3.Train.Encode.{
  same_total, same_items, train_same_len, encode_train_same, checked_frame, as_u8, flows_total,
  items_total, dict_flows, dict_items, train_dict_len, valid_train_flows, fids_ok, idxs_ok,
  encode_train_dict,
}
use my_quic.Mqp.R3.Train.Length.{IsSized, AllSized, length-same_item}
use my_quic.Mqp.R3.Train.Encodable.{Encodable, dict_bytes, length-dict_flows}

same_total_ok :
    (ps : List Bytes) (t : ℕ)
    → All IsSized ps
    → t + length (same_items ps) < 2 ^ 64
    → same_total t ps ≡ some (t + length (same_items ps))
unfolding same_total
same_total_ok [] t hs small = ap some (omega arith)
same_total_ok (p ∷ ps) t (s, hs) small =
    let k = s.field in
    let l = length-same_item p (same_items ps) k s.field_eq in
    rw
      (
        s.field_eq,
        checked_add_ok t k (omega arith),
        checked_add_ok (t + k) (length p) (omega arith),
      )
      (same_total_ok ps (t + k + length p) hs (omega arith) ∙ ap some (omega arith))

flows_total_ok :
    (fs : List ℕ) (t : ℕ)
    → t + length (dict_flows fs) < 2 ^ 64
    → flows_total t fs ≡ some (t + length (dict_flows fs))
unfolding flows_total
flows_total_ok [] t small = ap some (omega arith)
flows_total_ok (f ∷ fs) t small =
    rw (checked_add_ok t 2 (omega arith))
      (flows_total_ok fs (t + 2) (omega arith) ∙ ap some (omega arith))

items_total_ok :
    (its : List (ℕ × Bytes)) (t : ℕ)
    → AllSized its
    → t + length (dict_items its) < 2 ^ 64
    → items_total t its ≡ some (t + length (dict_items its))
unfolding items_total
items_total_ok [] t hs small = ap some (omega arith)
items_total_ok ((i, p) ∷ its) t (s, hs) small =
    let k = s.field in
    let l = length-same_item p (dict_items its) k s.field_eq in
    rw
      (
        checked_add_ok t 1 (omega arith),
        s.field_eq,
        checked_add_ok (t + 1) k (omega arith),
        checked_add_ok (t + 1 + k) (length p) (omega arith),
      )
      (items_total_ok its (t + 1 + k + length p) hs (omega arith) ∙ ap some (omega arith))

checked_frame_ok : (v : Bytes) (n : ℕ) → length v ≡ n → checked_frame v n ≡ some v
unfolding checked_frame
checked_frame_ok v n h = ground arith

encode_train_same-writes :
    (fid : ℕ) (ps : List Bytes) (limit : ℕ)
    → valid_fid fid ≡ true
    → valid_train_count (length ps) ≡ true
    → All IsSized ps
    → 4 + length (same_items ps) ≤ limit
    → limit < 2 ^ 64
    → encode_train_same fid ps limit ≡ some (0x80 ∷ (u16_le fid ++ (length ps ∷ same_items ps)))
unfolding encode_train_same train_same_len
encode_train_same-writes fid ps limit hv hc hs hl small =
    let c : as_u8 (length ps) ≡ length ps = ground (arith, hc) in
    rw
      (hc, hv, same_total_ok ps 4 hs (omega arith), le→leb (4 + length (same_items ps)) limit hl, c)
      (checked_frame_ok _ _ (omega arith))

valid_train_flows_ok :
    (fs : List ℕ) (its : List (ℕ × Bytes))
    → 1 ≤ length fs
    → length fs ≤ 64
    → length fs ≤ length its
    → fids_ok [] fs ≡ true
    → idxs_ok (length fs) its ≡ true
    → valid_train_flows fs its ≡ some tt
unfolding valid_train_flows
valid_train_flows_ok fs its h₁ h₂ h₃ h₄ h₅ = ground arith

encode_train_dict-writes :
    (fs : List ℕ) (its : List (ℕ × Bytes)) (limit : ℕ)
    → Encodable fs its
    → 3 + 2 * length fs + length (dict_items its) ≤ limit
    → encode_train_dict fs its limit ≡ some (dict_bytes fs its)
unfolding encode_train_dict train_dict_len
encode_train_dict-writes fs its limit v hl =
    let few : length its ≤ 64 = ground (arith, v.count_ok) in
    let s = v.small in
    let w₁ = v.some_flow in
    let w₂ = v.few_flows in
    let c₁ : as_u8 (length its) ≡ length its = ground (arith, few) in
    let c₂ : as_u8 (length fs) ≡ length fs = ground (arith, few) in
    let l = length-dict_flows fs in
    rw
      (
        v.count_ok,
        valid_train_flows_ok fs its w₁ (omega arith) w₂ v.fids v.idxs,
        flows_total_ok fs 3 (omega arith),
        items_total_ok its (3 + length (dict_flows fs)) v.sized (omega arith),
        le→leb (3 + length (dict_flows fs) + length (dict_items its)) limit (omega arith),
        c₁,
        c₂,
      )
      (checked_frame_ok _ _ (omega (arith, length-append (dict_flows fs) (dict_items its))))

-- The `SAME` and `DICT` encoders write every train that is encodable and fits the limit. For `SAME`:
-- 1 to 64 payloads of a valid flow, each of an encodable length; the frame is the header followed by
-- the sized payloads. For `DICT`: 1 to 64 items of encodable lengths and a dictionary of distinct
-- valid flow ids, no more of them than items, indices inside it; the frame is the header, the
-- dictionary and the indexed, sized payloads. The budgeted length is the length written.
pub encode_train-writes :
    (fid : ℕ) (ps : List Bytes) (fs : List ℕ) (its : List (ℕ × Bytes)) (limit : ℕ)
    → valid_fid fid ≡ true
    → valid_train_count (length ps) ≡ true
    → All IsSized ps
    → 4 + length (same_items ps) ≤ limit
    → Encodable fs its
    → 3 + 2 * length fs + length (dict_items its) ≤ limit
    → limit < 2 ^ 64
    → (encode_train_same fid ps limit ≡ some (0x80 ∷ (u16_le fid ++ (length ps ∷ same_items ps))))
      × (encode_train_dict fs its limit ≡ some (dict_bytes fs its))
encode_train-writes fid ps fs its limit hv hc hs hl v hl' small = (
  encode_train_same-writes fid ps limit hv hc hs hl small,
  encode_train_dict-writes fs its limit v hl',
)
