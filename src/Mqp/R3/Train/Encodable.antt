-- ===== src/Mqp/R3/Train/Encodable.antt =====
-- src/mqp/r3.rs: the inputs that the `DICT` encoder lets through.
use my_quic.Common.{
  ℕ, ◌+◌, ◌*◌, ◌^◌, ◌≤◌, ◌<◌, ◌≡◌, ap, ◌∙◌, true, some, List, [], ◌∷◌, ◌++◌, arith, leb, length,
}
use my_quic.Common.Bytes.{Bytes}
use my_quic.Common.Opt.{>>=-eq-some, require}
use my_quic.Mqp.R3.Field.{valid_train_count}
use my_quic.Mqp.R3.Train.Encode.{
  dict_items, dict_flows, fids_ok, idxs_ok, valid_train_flows, train_dict_len, flows_total,
  encode_train_dict, checked_frame, as_u8,
}
use my_quic.Mqp.R3.Train.Length.{AllSized, items_total_inv, flows_total_inv}

abbrev pub dict_bytes : List ℕ → List (ℕ × Bytes) → Bytes
dict_bytes fs its = 0xA0 ∷ length fs ∷ length its ∷ (dict_flows fs ++ dict_items its)

pub length-dict_flows : (fs : List ℕ) → length (dict_flows fs) ≡ 2 * length fs
length-dict_flows [] = omega arith
length-dict_flows (f ∷ fs) = omega (arith, length-dict_flows fs)

-- What an encodable dictionary and its items satisfy.
pub record Encodable (fs : List ℕ) (its : List (ℕ × Bytes)) : Type 0 where
  pub count_ok : valid_train_count (length its) ≡ true
  pub some_flow : 1 ≤ length fs
  pub few_flows : length fs ≤ length its
  pub fids : fids_ok [] fs ≡ true
  pub idxs : idxs_ok (length fs) its ≡ true
  pub sized : AllSized its
  pub small : 3 + 2 * length fs + length (dict_items its) < 2 ^ 64

valid_train_flows_inv :
    (fs : List ℕ) (its : List (ℕ × Bytes)) (u : Unit {0})
    → valid_train_flows fs its ≡ some u
    → (1 ≤ length fs)
      × (length fs ≤ 64)
      × (length fs ≤ length its)
      × (fids_ok [] fs ≡ true)
      × (idxs_ok (length fs) its ≡ true)
unfolding valid_train_flows
valid_train_flows_inv fs its u e = ground arith

pub checked_frame_inv :
    (v w : Bytes) (total : ℕ) → checked_frame v total ≡ some w → (w ≡ v) × (length w ≡ total)
unfolding checked_frame
checked_frame_inv v w total e = ground arith

-- The inputs that the encoder lets through.
pub encode_train_dict_inv :
    (fs : List ℕ) (its : List (ℕ × Bytes)) (limit : ℕ) (w : Bytes)
    → encode_train_dict fs its limit ≡ some w
    → Encodable fs its × (w ≡ dict_bytes fs its) × (length w ≤ limit)
unfolding encode_train_dict train_dict_len
encode_train_dict_inv fs its limit w e =
    let (total, e₁, r₁) = >>=-eq-some (train_dict_len fs its) _ e in
    let (u₂, e₂, r₂) = >>=-eq-some (require (valid_train_count (length its))) _ e₁ in
    let (u₃, e₃, r₃) = >>=-eq-some (valid_train_flows fs its) _ r₂ in
    let (t, e₄, r₄) = >>=-eq-some (flows_total 3 fs) _ r₃ in
    let (u₅, e₅, r₅) = >>=-eq-some (require (leb total limit)) _ r₁ in
    let (v₁, v₂, v₃, v₄, v₅) = valid_train_flows_inv fs its u₃ e₃ in
    let (q₁, _) = flows_total_inv fs 3 t (omega arith) e₄ in
    let (q₂, h₂, hs) =
      items_total_inv its t total (omega (arith, (flows_total_inv fs 3 t (omega arith) e₄).1)) r₄ in
    let hc : valid_train_count (length its) ≡ true = ground arith in
    let hl : total ≤ limit = ground arith in
    let c₁ : as_u8 (length its) ≡ length its = ground arith in
    let c₂ : as_u8 (length fs) ≡ length fs = ground (arith, v₂) in
    let (ew, el) = checked_frame_inv _ w _ r₅ in
    (
      record {
        count_ok = hc;
        some_flow = v₁;
        few_flows = v₃;
        fids = v₄;
        idxs = v₅;
        sized = hs;
        small = omega (arith, length-dict_flows fs);
      },
      ew
          ∙ ap (λ x. 0xA0 ∷ x ∷ as_u8 (length its) ∷ (dict_flows fs ++ dict_items its)) c₂
          ∙ ap (λ x. 0xA0 ∷ length fs ∷ x ∷ (dict_flows fs ++ dict_items its)) c₁,
      omega arith,
    )
