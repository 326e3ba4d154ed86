-- ===== src/Mqp/R3/Train/Equal.antt =====
-- src/mqp/r3.rs: a `SAME_EQUAL` train reads back, item for item.
use my_quic.Common.{
  ℕ, suc, ◌+◌, ◌-◌, ◌*◌, ◌^◌, ◌≤◌, ◌<◌, ◌≡◌, refl, ap, sym, ◌∙◌, true, false, not, some, List, [],
  ◌∷◌, ◌++◌, arith, leb, lt→ltb, length, length-map, length-append, drop, map, All, ◌==◌,
}
use my_quic.Common.Bytes.{
  Bytes, u16_le, checked_add, checked_mul, checked_add_ok, get_range, get_range_ok, drop_step,
}
use my_quic.Common.Opt.{>>=-eq-some, require}
use my_quic.Mqp.Error.{ok}
use my_quic.Mqp.R3.Fid.{valid_fid}
use my_quic.Mqp.R3.Field.{item_len_len, put_item_len, valid_train_count}
use my_quic.Mqp.R3.Field.Laws.{get_u16_ok, get_item_len-put, length-put_item_len}
use my_quic.Mqp.R3.Train.{TrainFrame}
use my_quic.Mqp.R3.Train.Encode.{
  equal_items, any_other_len, first_len, train_same_equal_len, encode_train_same_equal,
  checked_frame, as_u8,
}
use my_quic.Mqp.R3.Train.Encodable.{checked_frame_inv}
use my_quic.Mqp.R3.Train.Decode.{equal_body, decode_train_flow, decode_train}
use my_quic.Mqp.R3.Train.Items.{
  TrainItems, items, next, collect, collect_step, collect_spent, all_items-Gives, Gives, all_items,
}
use my_quic.Mqp.R3.Train.Length.{length-equal_items}

-- The iterator over the items of one flow, all of `n` bytes.
unfoldable pub equal_state : ℕ → ℕ → ℕ → Bytes → TrainItems
equal_state fid n count bytes = record {
  form = 1;
  remaining = count;
  item_len = n;
  nfl = 1;
  flows = fid ∷ [];
  items = bytes;
}

pub next-equal_state :
    (fid n count : ℕ) (p rest : Bytes)
    → length p ≡ n
    → next (equal_state fid n (suc count) (p ++ rest))
      ≡ (some (fid, p), equal_state fid n count rest)
unfolding next equal_state
next-equal_state fid n count p rest h =
    let d : suc count - 1 ≡ count = omega arith in
    let z : (suc count == 0) ≡ false = ground arith in
    let front : 0 + n ≡ n = omega arith in
    let g₀ =
      get_range_ok (p ++ rest) 0 n p rest refl (sym h) (omega (arith, length-append p rest)) in
    let g : get_range (p ++ rest) 0 n ≡ some p = rw front at g₀ in
    let r₀ = drop_step (p ++ rest) 0 n p rest refl (sym h) in
    let r : drop n (p ++ rest) ≡ rest = rw front at r₀ in rw (g, r, d, z)

collect_equal :
    (fid n : ℕ) (ps : List Bytes)
    → All (λ p. length p ≡ n) ps
    → collect (suc (length ps)) (equal_state fid n (length ps) (equal_items ps))
      ≡ map (λ p. (fid, p)) ps
unfolding collect equal_state
collect_equal fid n [] hs = collect_spent 0 (equal_state fid n 0 []) refl
collect_equal fid n (p ∷ ps) (h, hs) =
    collect_step (suc (length ps)) _ _ (fid, p)
      (next-equal_state fid n (length ps) p (equal_items ps) h)
    ∙ ap (◌∷◌ (fid, p)) (collect_equal fid n ps hs)

abbrev equal_frame : ℕ → ℕ → List Bytes → TrainFrame
equal_frame fid n ps = record {
  form = 1;
  count = length ps;
  nfl = 1;
  item_len = n;
  flows = fid ∷ [];
  items = equal_items ps;
}

abbrev equal_bytes : ℕ → ℕ → List Bytes → Bytes
equal_bytes fid n ps = 0x90 ∷ (u16_le fid ++ (length ps ∷ ((put_item_len n).0 ++ equal_items ps)))

module _ (fid n k : ℕ) (ps : List Bytes) (ek : item_len_len n ≡ some k)
    (hq : length (equal_items ps) ≡ n * length ps)
    (small : 4 + k + length (equal_items ps) < 2 ^ 64) where
  equal_body_ok : equal_body (equal_bytes fid n ps) (length ps) 4 ≡ ok (n, 4 + k)
  unfolding equal_body
  equal_body_ok =
      let b = equal_bytes fid n ps in
      let l = length-put_item_len n k ek in
      let lb : length b ≡ 4 + k + length (equal_items ps) =
        omega (arith, length-append (put_item_len n).0 (equal_items ps)) in
      let ml : length ps * n ≡ length (equal_items ps) = omega (arith, hq) in
      rw
        (
          get_item_len-put b 4 n k (equal_items ps) ek refl (omega arith),
          ml,
          lt→ltb (length (equal_items ps)) (2 ^ 64) (omega arith),
          checked_add_ok (4 + k) (length (equal_items ps)) small,
        )
        (ground (arith, lb))

  decode_train_equal :
      valid_fid fid ≡ true
      → valid_train_count (length ps) ≡ true
      → decode_train (equal_bytes fid n ps) ≡ ok (equal_frame fid n ps)
  unfolding decode_train decode_train_flow
  decode_train_equal hv hc =
      let b = equal_bytes fid n ps in
      let tail = (put_item_len n).0 ++ equal_items ps in
      let r : drop (4 + k) b ≡ equal_items ps =
        drop_step b 4 k (put_item_len n).0 (equal_items ps) refl
          (sym (length-put_item_len n k ek)) in
      rw (
        get_u16_ok b 1 fid (length ps ∷ tail) refl (ground arith) (omega arith),
        hv,
        hc,
        equal_body_ok,
        r,
      )

-- The inputs that the encoder lets through.
encode_train_same_equal_inv :
    (fid : ℕ) (ps : List Bytes) (limit : ℕ) (w : Bytes)
    → encode_train_same_equal fid ps limit ≡ some w
    → (n k : ℕ) × (item_len_len n ≡ some k)
      × (any_other_len n ps ≡ false)
      × (valid_fid fid ≡ true)
      × (valid_train_count (length ps) ≡ true)
      × (4 + k + n * length ps < 2 ^ 64)
      × (w ≡ equal_bytes fid n ps)
      × (length w ≤ limit)
unfolding encode_train_same_equal train_same_equal_len checked_frame
encode_train_same_equal_inv fid ps limit w e =
    let (total, e₁, r₁) = >>=-eq-some (train_same_equal_len fid ps) _ e in
    let (u₂, e₂, r₂) = >>=-eq-some (require (valid_train_count (length ps))) _ e₁ in
    let (u₃, e₃, r₃) = >>=-eq-some (require (valid_fid fid)) _ r₂ in
    let (n, e₄, r₄) = >>=-eq-some (first_len ps) _ r₃ in
    let (u₅, e₅, r₅) = >>=-eq-some (require (not (any_other_len n ps))) _ r₄ in
    let (k, e₆, r₆) = >>=-eq-some (item_len_len n) _ r₅ in
    let (t, e₇, r₇) = >>=-eq-some (checked_add 4 k) _ r₆ in
    let (body, e₈, r₈) = >>=-eq-some (checked_mul n (length ps)) _ r₇ in
    let (u₉, e₉, r₉) = >>=-eq-some (require (leb total limit)) _ r₁ in
    let (n', ea, ra) = >>=-eq-some (first_len ps) _ r₉ in
    let same : n' ≡ n = cc in
    let hc : valid_train_count (length ps) ≡ true = ground arith in
    let c : as_u8 (length ps) ≡ length ps = ground arith in
    let hl : total ≤ limit = ground arith in
    let lw : length w ≡ total = ground arith in
    (
      n,
      k,
      e₆,
      ground arith,
      ground arith,
      hc,
      ground arith,
      (checked_frame_inv _ w _ ra).0
          ∙ ap (λ x. 0x90 ∷ (u16_le fid ++ (x ∷ ((put_item_len n').0 ++ equal_items ps)))) c
          ∙ ap (λ x. equal_bytes fid x ps) same,
      omega arith,
    )

-- A `SAME_EQUAL` train that was encoded fits the limit and decodes to a frame whose iterator gives
-- back the payloads in order, each with the train's flow id, and then ends: the call after the last
-- payload returns nothing, also where the payloads are empty.
pub encode_train_same_equal-decode_train :
    (fid : ℕ) (ps : List Bytes) (limit : ℕ) (w : Bytes)
    → encode_train_same_equal fid ps limit ≡ some w
    → (f : TrainFrame) × (decode_train w ≡ ok f)
      × (all_items f ≡ map (λ p. (fid, p)) ps)
      × Gives (items f) (map (λ p. (fid, p)) ps)
      × (length w ≤ limit)
unfolding items equal_state
encode_train_same_equal-decode_train fid ps limit w e =
    let (n, k, ek, ho, hv, hc, small, ew, hl) = encode_train_same_equal_inv fid ps limit w e in
    let (hq, hs) = length-equal_items ps n ho in
    let gives = collect_equal fid n ps hs in
    (
      equal_frame fid n ps,
      ap decode_train ew ∙ decode_train_equal fid n k ps ek hq (omega (arith, hq)) hv hc,
      gives,
      all_items-Gives (equal_frame fid n ps) gives (length-map (λ p. (fid, p)) ps),
      hl,
    )
