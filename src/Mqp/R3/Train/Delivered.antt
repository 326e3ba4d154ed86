-- ===== src/Mqp/R3/Train/Delivered.antt =====
-- src/mqp/r3.rs: every train that `decode_train` lets through.
use my_quic.Common.{
  ℕ, suc, ◌+◌, ◌/◌, ◌⊎◌, ◌≤◌, ◌≡◌, refl, ap, sym, subst, ◌∙◌, true, not, ◌||◌, [], ◌∷◌, arith, ltb,
  ◌==◌, ==→eq, length, length-drop, drop, get_elem?, if◌then◌else◌, Bool-cases, inl, inr, bit_and,
}
use my_quic.Common.Bytes.{Bytes}
use my_quic.Mqp.Error.{Result, ok, err, ok_or, guard, malformed, >>=-eq-ok, guard_inv, ok_injective}
use my_quic.Mqp.R3.Fid.{valid_fid}
use my_quic.Mqp.R3.Field.{get_u16, valid_train_count}
use my_quic.Mqp.R3.Train.{TrainFrame}
use my_quic.Mqp.R3.Train.Encode.{fids_ok}
use my_quic.Mqp.R3.Train.Decode.{
  walk_same, walk_dict, read_flows, same_body, equal_body, decode_train_flow, decode_train_dict,
  decode_train,
}
use my_quic.Mqp.R3.Train.Items.{items, collect, all_items, all_items-Gives}
use my_quic.Mqp.R3.Train.Same.{same_state}
use my_quic.Mqp.R3.Train.Equal.{equal_state}
use my_quic.Mqp.R3.Train.Dict.{dict_state}
use my_quic.Mqp.R3.Train.Yields.{
  IsOf, Delivers, walk_same-IsOf, walk_dict-IsOf, read_flows_inv, collect_equal-IsOf,
  equal_body_inv,
}

count_bounds : (n : ℕ) → valid_train_count n ≡ true → (1 ≤ n) × (n ≤ 64)
count_bounds n h = ground arith

single_ok : (fid : ℕ) → valid_fid fid ≡ true → fids_ok [] (fid ∷ []) ≡ true
unfolding fids_ok
single_ok fid h = rw h

-- A frame of one flow.
abbrev flow_frame : ℕ → ℕ → ℕ → ℕ → Bytes → TrainFrame
flow_frame form count len fid bytes = record {
  form = form;
  count = count;
  nfl = 1;
  item_len = len;
  flows = fid ∷ [];
  items = bytes;
}

flow_frame-Delivers :
    (form count len fid : ℕ) (bytes : Bytes)
    → valid_fid fid ≡ true
    → valid_train_count count ≡ true
    → IsOf (fid ∷ []) count (all_items (flow_frame form count len fid bytes))
    → Delivers (flow_frame form count len fid bytes)
flow_frame-Delivers form count len fid bytes hv hc y =
    let (h₁, h₂) = count_bounds count hc in
    record {
      count_pos = h₁;
      count_le = h₂;
      nfl_pos = omega arith;
      nfl_le = h₁;
      flows_len = refl;
      flows_ok = single_ok fid hv;
      yields = y;
      ends = all_items-Gives (flow_frame form count len fid bytes) refl y.0;
    }

decode_train_same-Delivers :
    (b : Bytes) (f : TrainFrame) → decode_train_flow b 0 ≡ ok f → Delivers f
unfolding decode_train_flow same_body items same_state
decode_train_same-Delivers b f e =
    let ((fid, off), e₁, r₁) = >>=-eq-ok (get_u16 b 1) _ e in
    let (u₂, e₂, r₂) = >>=-eq-ok (guard (valid_fid fid) _) _ r₁ in
    let (count, e₃, r₃) = >>=-eq-ok (ok_or (get_elem? b off) _) _ r₂ in
    let (u₄, e₄, r₄) = >>=-eq-ok (guard (valid_train_count count) _) _ r₃ in
    let ((len, off₁), e₅, r₅) = >>=-eq-ok (same_body b count (off + 1)) _ r₄ in
    let (p, e₆, r₆) = >>=-eq-ok (walk_same count b (off + 1)) _ e₅ in
    let (u₇, e₇, r₇) = >>=-eq-ok (guard (p == length b) _) _ r₆ in
    let y =
      subst (λ x. IsOf (fid ∷ []) count (all_items (flow_frame 0 count x.0 fid (drop x.1 b))))
        (ok_injective r₇) (walk_same-IsOf count b (off + 1) p fid e₆) in
    subst Delivers (ok_injective r₅) (
      flow_frame-Delivers 0 count len fid (drop off₁ b) (guard_inv _ _ u₂ e₂) (guard_inv _ _ u₄ e₄)
        y)

decode_train_equal-Delivers :
    (b : Bytes) (f : TrainFrame) → decode_train_flow b 1 ≡ ok f → Delivers f
unfolding decode_train_flow items equal_state
decode_train_equal-Delivers b f e =
    let ((fid, off), e₁, r₁) = >>=-eq-ok (get_u16 b 1) _ e in
    let (u₂, e₂, r₂) = >>=-eq-ok (guard (valid_fid fid) _) _ r₁ in
    let (count, e₃, r₃) = >>=-eq-ok (ok_or (get_elem? b off) _) _ r₂ in
    let (u₄, e₄, r₄) = >>=-eq-ok (guard (valid_train_count count) _) _ r₃ in
    let ((n, off₁), e₅, r₅) = >>=-eq-ok (equal_body b count (off + 1)) _ r₄ in
    let l = equal_body_inv b count (off + 1) n off₁ e₅ in
    let y = collect_equal-IsOf count n fid (drop off₁ b) (omega (arith, length-drop off₁ b)) in
    subst Delivers (ok_injective r₅) (
      flow_frame-Delivers 1 count n fid (drop off₁ b) (guard_inv _ _ u₂ e₂) (guard_inv _ _ u₄ e₄) y)

nfl_bounds : (n count : ℕ) → not (n == 0 || ltb count n) ≡ true → (1 ≤ n) × (n ≤ count)
nfl_bounds n count h = ground arith

decode_train_dict-Delivers :
    (b : Bytes) (f : TrainFrame) → decode_train_dict b 2 ≡ ok f → Delivers f
unfolding decode_train_dict items dict_state
decode_train_dict-Delivers b f e =
    let (nfl, e₁, r₁) = >>=-eq-ok (ok_or (get_elem? b 1) _) _ e in
    let (count, e₂, r₂) = >>=-eq-ok (ok_or (get_elem? b 2) _) _ r₁ in
    let (u₃, e₃, r₃) = >>=-eq-ok (guard (valid_train_count count) _) _ r₂ in
    let (u₄, e₄, r₄) = >>=-eq-ok (guard (not (nfl == 0 || ltb count nfl)) _) _ r₃ in
    let ((fs, start), e₅, r₅) = >>=-eq-ok (read_flows nfl b 3 []) _ r₄ in
    let (p, e₆, r₆) = >>=-eq-ok (walk_dict count nfl b start) _ r₅ in
    let (u₇, e₇, r₇) = >>=-eq-ok (guard (p == length b) _) _ r₆ in
    let (more, m₁, m₂, m₃) = read_flows_inv nfl b 3 start [] fs e₅ in
    let hl : length fs ≡ nfl = ap length m₁ ∙ m₂ in
    let hf : fids_ok [] fs ≡ true = ap (fids_ok []) m₁ ∙ m₃ in
    let w : walk_dict count (length fs) b start ≡ ok p =
      ap (λ n. walk_dict count n b start) hl ∙ e₆ in
    let y =
      subst
        (λ n. IsOf fs count (
          collect (suc count) (record {
            form = 2;
            remaining = count;
            item_len = 0;
            nfl = n;
            flows = fs;
            items = drop start b;
          })))
        hl (walk_dict-IsOf count fs b start p w) in
    let frame : TrainFrame = record {
      form = 2;
      count = count;
      nfl = nfl;
      item_len = 0;
      flows = fs;
      items = drop start b;
    } in
    let (h₁, h₂) = count_bounds count (guard_inv _ _ u₃ e₃) in
    let (h₃, h₄) = nfl_bounds nfl count (guard_inv _ _ u₄ e₄) in
    subst Delivers (ok_injective r₇) (record {
      count_pos = h₁;
      count_le = h₂;
      nfl_pos = h₃;
      nfl_le = h₄;
      flows_len = hl;
      flows_ok = hf;
      yields = y;
      ends = all_items-Gives frame refl y.0;
    })

form_cases : (form : ℕ) → (form == 0 || form == 1) ≡ true → (form ≡ 0) ⊎ (form ≡ 1)
form_cases form h = elim (Bool-cases (form == 0)) [
  | inl z ↦ inl (==→eq form 0 z)
  | inr z ↦ inr (==→eq form 1 (rw z at h))
]

decode_form : Bytes → ℕ → Result TrainFrame
decode_form b form =
    if form == 0 || form == 1
    then decode_train_flow b form
    else if form == 2
    then decode_train_dict b form
    else err (malformed "bad r3 train form")

decode_form-Delivers :
    (b : Bytes) (form : ℕ) (f : TrainFrame) → decode_form b form ≡ ok f → Delivers f
unfolding decode_form
decode_form-Delivers b form f e = elim (Bool-cases (form == 0 || form == 1)) [
  | inl t ↦ elim (form_cases form t) [
    | inl z ↦ decode_train_same-Delivers b f (ap (decode_train_flow b) (sym z) ∙ rw t at e)
    | inr z ↦ decode_train_equal-Delivers b f (ap (decode_train_flow b) (sym z) ∙ rw t at e)
  ]
  | inr t ↦ elim (Bool-cases (form == 2)) [
    | inl d ↦
        decode_train_dict-Delivers b f
          (ap (decode_train_dict b) (sym (==→eq form 2 d)) ∙ rw (t, d) at e)
    | inr d ↦ cc (rw (t, d) at e)
  ]
]

-- Every train that is let through has 1 to 64 items and a dictionary of distinct flow ids of 14
-- bits, as many as `nfl` and no more than items. Its iterator gives exactly `count` items, each with
-- a flow id of the dictionary, and then ends: the call after the last item returns nothing.
pub decode_train-Delivers : (b : Bytes) (f : TrainFrame) → decode_train b ≡ ok f → Delivers f
unfolding decode_train decode_form
decode_train-Delivers b f e =
    let (b0, e₁, r₁) = >>=-eq-ok (ok_or (get_elem? b 0) _) _ e in
    let (u₂, e₂, r₂) = >>=-eq-ok (guard (bit_and b0 0xC0 == 0x80) _) _ r₁ in
    let (u₃, e₃, r₃) = >>=-eq-ok (guard (bit_and b0 0x0F == 0) _) _ r₂ in
    decode_form-Delivers b (bit_and b0 0x30 / 16) f r₃
