-- ===== src/Mqp/R3/Train/Encode.antt =====
-- src/mqp/r3.rs: the `TRAIN` lengths and encoders.
use my_quic.Common.{
  ℕ, ◌*◌, ◌%◌, Bool, true, false, not, ◌&&◌, Option, none, some, List, [], ◌∷◌, ◌++◌, leb, ◌==◌,
  ◌!=◌, if◌then◌else◌, length, bit_or,
}
use my_quic.Common.Bytes.{Bytes, u16_le, checked_add, checked_mul}
use my_quic.Common.Opt.{◌>>=◌, ◌>>◌, require}
use my_quic.Mqp.R3.Frame.{
  class_train, train_form_same, train_form_same_equal, train_form_dict, max_train_items,
}
use my_quic.Mqp.R3.Fid.{valid_fid}
use my_quic.Mqp.R3.Field.{valid_train_count, item_len_len, put_item_len}

-- `for p in payloads { total = total.checked_add(…)?; … }`
unfoldable pub same_total : ℕ → List Bytes → Option ℕ
same_total total [] = some total
same_total total (p ∷ ps) = do
  k ← item_len_len (length p)
  t₁ ← checked_add total k
  t₂ ← checked_add t₁ (length p)
  same_total t₂ ps

unfoldable pub train_same_len : ℕ → List Bytes → Option ℕ
train_same_len fid payloads = do
  require (valid_train_count (length payloads))
  require (valid_fid fid)
  same_total 4 payloads

-- `payloads.iter().any(|p| p.len() != item_len)`
unfoldable pub any_other_len : ℕ → List Bytes → Bool
any_other_len item_len [] = false
any_other_len item_len (p ∷ ps) = if length p != item_len then true else any_other_len item_len ps

-- `payloads.first()?.len()`
unfoldable pub first_len : List Bytes → Option ℕ
first_len [] = none
first_len (p ∷ ps) = some (length p)

unfoldable pub train_same_equal_len : ℕ → List Bytes → Option ℕ
train_same_equal_len fid payloads = do
  require (valid_train_count (length payloads))
  require (valid_fid fid)
  item_len ← first_len payloads
  require (not (any_other_len item_len payloads))
  k ← item_len_len item_len
  total ← checked_add 4 k
  body ← checked_mul item_len (length payloads)
  checked_add total body

abbrev pub contains : List ℕ → ℕ → Bool
contains [] f = false
contains (g ∷ gs) f = if g == f then true else contains gs f

-- The loop over `flows`; `seen` is `flows[..i]`.
unfoldable pub fids_ok : List ℕ → List ℕ → Bool
fids_ok seen [] = true
fids_ok seen (f ∷ fs) =
    if valid_fid f && not (contains seen f) then fids_ok (seen ++ f ∷ []) fs else false

unfoldable pub idxs_ok : ℕ → List (ℕ × Bytes) → Bool
idxs_ok nfl [] = true
idxs_ok nfl ((idx, p) ∷ items) = if leb nfl idx then false else idxs_ok nfl items

unfoldable pub valid_train_flows : List ℕ → List (ℕ × Bytes) → Option (Unit {0})
valid_train_flows flows items = do
  require (length flows != 0)
  require (leb (length flows) max_train_items)
  require (leb (length flows) (length items))
  require (fids_ok [] flows)
  require (idxs_ok (length flows) items)

unfoldable pub flows_total : ℕ → List ℕ → Option ℕ
flows_total total [] = some total
flows_total total (f ∷ fs) = do t ← checked_add total 2; flows_total t fs

unfoldable pub items_total : ℕ → List (ℕ × Bytes) → Option ℕ
items_total total [] = some total
items_total total ((idx, p) ∷ items) = do
  t₁ ← checked_add total 1
  k ← item_len_len (length p)
  t₂ ← checked_add t₁ k
  t₃ ← checked_add t₂ (length p)
  items_total t₃ items

unfoldable pub train_dict_len : List ℕ → List (ℕ × Bytes) → Option ℕ
train_dict_len flows items = do
  require (valid_train_count (length items))
  valid_train_flows flows items
  total ← flows_total 3 flows
  items_total total items

-- What the encoders append for the payloads.
abbrev pub same_items : List Bytes → Bytes
same_items [] = []
same_items (p ∷ ps) = (put_item_len (length p)).0 ++ (p ++ same_items ps)

abbrev pub equal_items : List Bytes → Bytes
equal_items [] = []
equal_items (p ∷ ps) = p ++ equal_items ps

abbrev pub dict_flows : List ℕ → Bytes
dict_flows [] = []
dict_flows (f ∷ fs) = u16_le f ++ dict_flows fs

abbrev pub dict_items : List (ℕ × Bytes) → Bytes
dict_items [] = []
dict_items ((idx, p) ∷ items) = idx ∷ ((put_item_len (length p)).0 ++ (p ++ dict_items items))

-- `payloads.len() as u8`
abbrev pub as_u8 : ℕ → ℕ
as_u8 n = n % 256

-- `if v.len() != total { return None }`
unfoldable pub checked_frame : Bytes → ℕ → Option Bytes
checked_frame v total = if length v != total then none else some v

unfoldable pub encode_train_same : ℕ → List Bytes → ℕ → Option Bytes
encode_train_same fid payloads limit = do
  total ← train_same_len fid payloads
  require (leb total limit)
  checked_frame
      (bit_or class_train train_form_same
        ∷ (u16_le fid ++ (as_u8 (length payloads) ∷ same_items payloads)))
      total

unfoldable pub encode_train_same_equal : ℕ → List Bytes → ℕ → Option Bytes
encode_train_same_equal fid payloads limit = do
  total ← train_same_equal_len fid payloads
  require (leb total limit)
  item_len ← first_len payloads
  checked_frame
      (bit_or class_train (train_form_same_equal * 16)
        ∷ (u16_le fid
            ++ (as_u8 (length payloads) ∷ ((put_item_len item_len).0 ++ equal_items payloads))))
      total

unfoldable pub encode_train_dict : List ℕ → List (ℕ × Bytes) → ℕ → Option Bytes
encode_train_dict flows items limit = do
  total ← train_dict_len flows items
  require (leb total limit)
  checked_frame
      (bit_or class_train (train_form_dict * 16)
        ∷ as_u8 (length flows)
        ∷ as_u8 (length items)
        ∷ (dict_flows flows ++ dict_items items))
      total
