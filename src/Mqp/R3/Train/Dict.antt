-- ===== src/Mqp/R3/Train/Dict.antt =====
-- src/mqp/r3.rs: a `DICT` train reads back, item for item.
use my_quic.Common.{
  ℕ, suc, ◌+◌, ◌-◌, ◌*◌, ◌^◌, ◌≤◌, ◌<◌, ◌≡◌, refl, ap, sym, ◌∙◌, true, false, not, ◌&&◌, some, List,
  [], ◌∷◌, ◌++◌, arith, leb, ltb, lt→ltb, length, length-map, length-append, drop, map, ◌==◌, eq→==,
  append_assoc, append-nil, get_elem?,
}
use my_quic.Common.Bytes.{Bytes, u16_le, index, get_elem?-drop, drop_step}
use my_quic.Mqp.Error.{ok}
use my_quic.Mqp.R3.Fid.{valid_fid}
use my_quic.Mqp.R3.Field.{put_item_len}
use my_quic.Mqp.R3.Field.Laws.{get_u16_ok}
use my_quic.Mqp.R3.Train.{TrainFrame}
use my_quic.Mqp.R3.Train.Encode.{
  dict_items, dict_flows, contains, fids_ok, idxs_ok, encode_train_dict,
}
use my_quic.Mqp.R3.Train.Encodable.{dict_bytes, Encodable, length-dict_flows, encode_train_dict_inv}
use my_quic.Mqp.R3.Train.Decode.{walk_dict, read_flows, decode_train_dict, decode_train}
use my_quic.Mqp.R3.Train.Items.{
  TrainItems, items, next, collect, collect_step, collect_spent, all_items-Gives, Gives, all_items,
  sized_item,
}
use my_quic.Mqp.R3.Train.Length.{AllSized, length-same_item}
use my_quic.Mqp.R3.Train.Walk.{rest_at, walk_item_ok, sized_item_ok}

idxs_ok_inv :
    (nfl i : ℕ) (p : Bytes) (its : List (ℕ × Bytes))
    → idxs_ok nfl ((i, p) ∷ its) ≡ true
    → (leb nfl i ≡ false) × (i < nfl) × (idxs_ok nfl its ≡ true)
unfolding idxs_ok
idxs_ok_inv nfl i p its h = ground arith

fids_ok_inv :
    (seen : List ℕ) (f : ℕ) (fs : List ℕ)
    → fids_ok seen (f ∷ fs) ≡ true
    → ((valid_fid f && not (contains seen f)) ≡ true)
      × (f < 16384)
      × (fids_ok (seen ++ f ∷ []) fs ≡ true)
unfolding fids_ok
fids_ok_inv seen f fs h = ground arith

read_flows_ok :
    (fs seen : List ℕ) (b rest : Bytes) (off : ℕ)
    → fids_ok seen fs ≡ true
    → drop off b ≡ dict_flows fs ++ rest
    → off + 2 * length fs < 2 ^ 64
    → (read_flows (length fs) b off seen ≡ ok (seen ++ fs, off + 2 * length fs))
      × (drop (off + 2 * length fs) b ≡ rest)
unfolding read_flows
read_flows_ok [] seen b rest off h here small =
    let z : off + 2 * 0 ≡ off = omega arith in rw (z, append-nil seen) (refl, here)
read_flows_ok (f ∷ fs) seen b rest off h here small =
    let (hv, hf, hr) = fids_ok_inv seen f fs h in
    let step = drop_step b off 2 (u16_le f) (dict_flows fs ++ rest) here refl in
    let (ih, ir) = read_flows_ok fs (seen ++ f ∷ []) b rest (off + 2) hr step (omega arith) in
    let q : off + 2 + 2 * length fs ≡ off + 2 * suc (length fs) = omega arith in
    let a : (seen ++ f ∷ []) ++ fs ≡ seen ++ f ∷ fs = append_assoc seen (f ∷ []) fs in
    (
      rw (get_u16_ok b off f (dict_flows fs ++ rest) here (omega arith) (omega arith), hv)
          (ih
            ∙ ap (λ i. ok ((seen ++ f ∷ []) ++ fs, i)) q
            ∙ ap (λ l. ok (l, off + 2 * suc (length fs))) a),
      ap (λ i. drop i b) (sym q) ∙ ir,
    )

walk_dict_ok :
    (its : List (ℕ × Bytes)) (nfl : ℕ) (b : Bytes) (off : ℕ)
    → idxs_ok nfl its ≡ true
    → AllSized its
    → drop off b ≡ dict_items its
    → off + length (dict_items its) ≤ length b
    → length b < 2 ^ 64
    → walk_dict (length its) nfl b off ≡ ok (off + length (dict_items its))
unfolding walk_dict
walk_dict_ok [] nfl b off hi hs here fits small = ap ok (omega arith)
walk_dict_ok ((i, p) ∷ its) nfl b off hi (s, hs) here fits small =
    let k = s.field in
    let (_, hlt, hr) = idxs_ok_inv nfl i p its hi in
    let l = length-same_item p (dict_items its) k s.field_eq in
    let tail = (put_item_len (length p)).0 ++ (p ++ dict_items its) in
    let here' : drop (off + 1) b ≡ tail = drop_step b off 1 (i ∷ []) tail here refl in
    let f : off + 1 + k + length p ≤ length b = omega arith in
    rw
      (
        get_elem?-drop b off i tail here,
        lt→ltb i nfl hlt,
        walk_item_ok b (off + 1) p (dict_items its) k s.field_eq here' f small,
      )
      (walk_dict_ok its nfl b (off + 1 + k + length p) hr hs
          (rest_at b (off + 1) p (dict_items its) k s.field_eq here' f small) (omega arith) small
        ∙ ap ok (omega arith))

-- The iterator over indexed items.
unfoldable pub dict_state : List ℕ → ℕ → Bytes → TrainItems
dict_state fs n bytes = record {
  form = 2;
  remaining = n;
  item_len = 0;
  nfl = length fs;
  flows = fs;
  items = bytes;
}

pub next-dict_state :
    (fs : List ℕ) (n i : ℕ) (bytes p rest : Bytes)
    → get_elem? bytes 0 ≡ some i
    → leb (length fs) i ≡ false
    → sized_item bytes 1 ≡ some (p, rest)
    → next (dict_state fs (suc n) bytes) ≡ (some (index fs i, p), dict_state fs n rest)
unfolding next dict_state
next-dict_state fs n i bytes p rest g h e =
    let d : suc n - 1 ≡ n = omega arith in
    let z : (suc n == 0) ≡ false = ground arith in rw (g, h, e, d, z)

-- An item with the flow id that its index stands for.
abbrev pub named : List ℕ → ℕ × Bytes → ℕ × Bytes
named fs (i, p) = (index fs i, p)

collect_dict :
    (fs : List ℕ) (its : List (ℕ × Bytes))
    → idxs_ok (length fs) its ≡ true
    → AllSized its
    → length (dict_items its) < 2 ^ 64
    → collect (suc (length its)) (dict_state fs (length its) (dict_items its)) ≡ map (named fs) its
unfolding collect dict_state
collect_dict fs [] hi hs small = collect_spent 0 (dict_state fs 0 []) refl
collect_dict fs ((i, p) ∷ its) hi (s, hs) small =
    let k = s.field in
    let bytes = dict_items ((i, p) ∷ its) in
    let (hn, _, hr) = idxs_ok_inv (length fs) i p its hi in
    let l = length-same_item p (dict_items its) k s.field_eq in
    let e = sized_item_ok bytes 1 p (dict_items its) k s.field_eq refl (omega arith) small in
    collect_step (suc (length its)) _ _ (index fs i, p)
      (next-dict_state fs (length its) i bytes p (dict_items its) refl hn e)
    ∙ ap (◌∷◌ (index fs i, p)) (collect_dict fs its hr hs (omega arith))

abbrev dict_frame : List ℕ → List (ℕ × Bytes) → TrainFrame
dict_frame fs its = record {
  form = 2;
  count = length its;
  nfl = length fs;
  item_len = 0;
  flows = fs;
  items = dict_items its;
}

decode_train_dict_ok :
    (fs : List ℕ) (its : List (ℕ × Bytes))
    → Encodable fs its
    → decode_train (dict_bytes fs its) ≡ ok (dict_frame fs its)
unfolding decode_train decode_train_dict
decode_train_dict_ok fs its v =
    let b = dict_bytes fs its in
    let s = v.small in
    let lb : length b ≡ 3 + 2 * length fs + length (dict_items its) =
      omega (arith, length-append (dict_flows fs) (dict_items its), length-dict_flows fs) in
    let (ef, er) = read_flows_ok fs [] b (dict_items its) 3 v.fids refl (omega arith) in
    let n₁ : (length fs == 0) ≡ false = ground (arith, v.some_flow) in
    let n₂ : ltb (length its) (length fs) ≡ false = ground (arith, v.few_flows) in
    rw (
      v.count_ok,
      n₁,
      n₂,
      ef,
      walk_dict_ok its (length fs) b (3 + 2 * length fs) v.idxs v.sized er (omega arith)
          (omega arith),
      er,
      eq→== (3 + 2 * length fs + length (dict_items its)) (length b) (omega arith),
    )

-- A `DICT` train that was encoded fits the limit and decodes to a frame whose iterator gives back
-- the items in order, each with the flow id that its index has in the dictionary, and then ends: the
-- call after the last item returns nothing.
pub encode_train_dict-decode_train :
    (fs : List ℕ) (its : List (ℕ × Bytes)) (limit : ℕ) (w : Bytes)
    → encode_train_dict fs its limit ≡ some w
    → (f : TrainFrame) × (decode_train w ≡ ok f)
      × (all_items f ≡ map (named fs) its)
      × Gives (items f) (map (named fs) its)
      × (length w ≤ limit)
unfolding items dict_state
encode_train_dict-decode_train fs its limit w e =
    let (v, ew, hl) = encode_train_dict_inv fs its limit w e in
    let gives = collect_dict fs its v.idxs v.sized (omega (arith, v.small)) in
    (
      dict_frame fs its,
      ap decode_train ew ∙ decode_train_dict_ok fs its v,
      gives,
      all_items-Gives (dict_frame fs its) gives (length-map (named fs) its),
      hl,
    )
