-- ===== src/Mqp/R3/Train/Same.antt =====
-- src/mqp/r3.rs: a `SAME` train reads back, item for item.
use my_quic.Common.{
  ℕ, suc, ◌+◌, ◌-◌, ◌^◌, ◌≤◌, ◌<◌, ◌≡◌, refl, ap, ◌∙◌, true, false, some, List, [], ◌∷◌, ◌++◌,
  arith, length, length-map, drop, map, All, ◌==◌, eq→==,
}
use my_quic.Common.Bytes.{Bytes, u16_le}
use my_quic.Common.Opt.{>>=-eq-some, require}
use my_quic.Mqp.Error.{ok}
use my_quic.Mqp.R3.Fid.{valid_fid}
use my_quic.Mqp.R3.Field.{valid_train_count}
use my_quic.Mqp.R3.Field.Laws.{get_u16_ok}
use my_quic.Mqp.R3.Train.{TrainFrame}
use my_quic.Mqp.R3.Train.Encode.{
  same_items, train_same_len, encode_train_same, checked_frame, as_u8,
}
use my_quic.Mqp.R3.Train.Decode.{walk_same, same_body, decode_train_flow, decode_train}
use my_quic.Mqp.R3.Train.Items.{
  TrainItems, items, next, collect, collect_step, collect_spent, all_items-Gives, Gives, all_items,
  sized_item,
}
use my_quic.Mqp.R3.Train.Length.{length-same_item, IsSized, same_total_inv}
use my_quic.Mqp.R3.Train.Walk.{walk_item_ok, sized_item_ok, rest_at}

walk_same_ok :
    (ps : List Bytes) (b : Bytes) (off : ℕ)
    → All IsSized ps
    → drop off b ≡ same_items ps
    → off + length (same_items ps) ≤ length b
    → length b < 2 ^ 64
    → walk_same (length ps) b off ≡ ok (off + length (same_items ps))
unfolding walk_same
walk_same_ok [] b off hs here fits small = ap ok (omega arith)
walk_same_ok (p ∷ ps) b off (s, hs) here fits small =
    let k = s.field in
    let l = length-same_item p (same_items ps) k s.field_eq in
    let f : off + k + length p ≤ length b = omega arith in
    rw (walk_item_ok b off p (same_items ps) k s.field_eq here f small) (
      walk_same_ok ps b (off + k + length p) hs
        (rest_at b off p (same_items ps) k s.field_eq here f small) (omega arith) small
      ∙ ap ok (omega arith))

-- The iterator over the items of one flow.
unfoldable pub same_state : ℕ → ℕ → Bytes → TrainItems
same_state fid n bytes = record {
  form = 0;
  remaining = n;
  item_len = 0;
  nfl = 1;
  flows = fid ∷ [];
  items = bytes;
}

pub next-same_state :
    (fid n : ℕ) (bytes p rest : Bytes)
    → sized_item bytes 0 ≡ some (p, rest)
    → next (same_state fid (suc n) bytes) ≡ (some (fid, p), same_state fid n rest)
unfolding next same_state
next-same_state fid n bytes p rest e =
    let d : suc n - 1 ≡ n = omega arith in
    let z : (suc n == 0) ≡ false = ground arith in rw (e, d, z)

collect_same :
    (fid : ℕ) (ps : List Bytes)
    → All IsSized ps
    → length (same_items ps) < 2 ^ 64
    → collect (suc (length ps)) (same_state fid (length ps) (same_items ps))
      ≡ map (λ p. (fid, p)) ps
unfolding collect same_state
collect_same fid [] hs small = collect_spent 0 (same_state fid 0 []) refl
collect_same fid (p ∷ ps) (s, hs) small =
    let k = s.field in
    let its = same_items (p ∷ ps) in
    let l = length-same_item p (same_items ps) k s.field_eq in
    let e = sized_item_ok its 0 p (same_items ps) k s.field_eq refl (omega arith) small in
    collect_step (suc (length ps)) _ _ (fid, p)
      (next-same_state fid (length ps) its p (same_items ps) e)
    ∙ ap (◌∷◌ (fid, p)) (collect_same fid ps hs (omega arith))

-- The frame that comes out.
abbrev same_frame : ℕ → List Bytes → TrainFrame
same_frame fid ps = record {
  form = 0;
  count = length ps;
  nfl = 1;
  item_len = 0;
  flows = fid ∷ [];
  items = same_items ps;
}

-- The bytes, with the count as it is.
abbrev same_bytes : ℕ → List Bytes → Bytes
same_bytes fid ps = 0x80 ∷ (u16_le fid ++ (length ps ∷ same_items ps))

decode_train_same :
    (fid : ℕ) (ps : List Bytes)
    → valid_fid fid ≡ true
    → valid_train_count (length ps) ≡ true
    → All IsSized ps
    → 4 + length (same_items ps) < 2 ^ 64
    → decode_train (same_bytes fid ps) ≡ ok (same_frame fid ps)
unfolding decode_train decode_train_flow same_body
decode_train_same fid ps hv hc hs small =
    let b = same_bytes fid ps in
    rw (
      get_u16_ok b 1 fid (length ps ∷ same_items ps) refl (ground arith) (omega arith),
      hv,
      hc,
      walk_same_ok ps b 4 hs refl (omega arith) (omega arith),
      eq→== (4 + length (same_items ps)) (length b) (omega arith),
    )

-- The inputs that the encoder lets through.
encode_train_same_inv :
    (fid : ℕ) (ps : List Bytes) (limit : ℕ) (w : Bytes)
    → encode_train_same fid ps limit ≡ some w
    → (valid_fid fid ≡ true)
      × (valid_train_count (length ps) ≡ true)
      × All IsSized ps
      × (4 + length (same_items ps) < 2 ^ 64)
      × (w ≡ same_bytes fid ps)
      × (length w ≤ limit)
unfolding encode_train_same train_same_len checked_frame
encode_train_same_inv fid ps limit w e =
    let (total, e₁, r₁) = >>=-eq-some (train_same_len fid ps) _ e in
    let (u₂, e₂, r₂) = >>=-eq-some (require (valid_train_count (length ps))) _ e₁ in
    let (u₃, e₃, r₃) = >>=-eq-some (require (valid_fid fid)) _ r₂ in
    let hc : valid_train_count (length ps) ≡ true = ground arith in
    let (q, hn, hs) = same_total_inv ps 4 total (omega arith) r₃ in
    let n : as_u8 (length ps) ≡ length ps = ground arith in
    let ew : w ≡ 0x80 ∷ (u16_le fid ++ (as_u8 (length ps) ∷ same_items ps)) = ground arith in
    let ew' : w ≡ same_bytes fid ps = rw n at ew in
    let hl : total ≤ limit = ground arith in
    (ground arith, hc, hs, omega arith, ew', omega (arith, ap length ew'))

-- A `SAME` train that was encoded fits the limit and decodes to a frame whose iterator gives back
-- the payloads in order, each with the train's flow id, and then ends: the call after the last
-- payload returns nothing.
pub encode_train_same-decode_train :
    (fid : ℕ) (ps : List Bytes) (limit : ℕ) (w : Bytes)
    → encode_train_same fid ps limit ≡ some w
    → (f : TrainFrame) × (decode_train w ≡ ok f)
      × (all_items f ≡ map (λ p. (fid, p)) ps)
      × Gives (items f) (map (λ p. (fid, p)) ps)
      × (length w ≤ limit)
unfolding items same_state
encode_train_same-decode_train fid ps limit w e =
    let (hv, hc, hs, small, ew, hl) = encode_train_same_inv fid ps limit w e in
    let gives = collect_same fid ps hs (omega arith) in
    (
      same_frame fid ps,
      ap decode_train ew ∙ decode_train_same fid ps hv hc hs small,
      gives,
      all_items-Gives (same_frame fid ps) gives (length-map (λ p. (fid, p)) ps),
      hl,
    )
