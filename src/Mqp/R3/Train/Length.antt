-- ===== src/Mqp/R3/Train/Length.antt =====
-- src/mqp/r3.rs: the `TRAIN` length functions count the bytes that the encoders append.
use my_quic.Common.{
  ℕ, ◌+◌, ◌*◌, ◌^◌, ◌<◌, ◌≡◌, false, some, List, [], ◌∷◌, ◌++◌, arith, length, length-append, All,
}
use my_quic.Common.Bytes.{Bytes, checked_add}
use my_quic.Common.Opt.{>>=-eq-some}
use my_quic.Mqp.R3.Field.{item_len_len, put_item_len}
use my_quic.Mqp.R3.Field.Laws.{length-put_item_len}
use my_quic.Mqp.R3.Train.Encode.{
  same_total, flows_total, items_total, same_items, equal_items, dict_flows, dict_items,
  any_other_len,
}

checked_add_inv : (a b c : ℕ) → checked_add a b ≡ some c → (c ≡ a + b) × (a + b < 2 ^ 64)
checked_add_inv a b c e = ground arith

-- A payload whose length has a length field.
pub record IsSized (p : Bytes) : Type 0 where
  pub field : ℕ
  pub field_eq : item_len_len (length p) ≡ some field

pub length-same_item :
    (p rest : Bytes) (k : ℕ)
    → item_len_len (length p) ≡ some k
    → length ((put_item_len (length p)).0 ++ (p ++ rest)) ≡ k + length p + length rest
length-same_item p rest k e = omega (
  arith,
  length-append (put_item_len (length p)).0 (p ++ rest),
  length-append p rest,
  length-put_item_len (length p) k e,
)

pub same_total_inv :
    (ps : List Bytes) (t n : ℕ)
    → t < 2 ^ 64
    → same_total t ps ≡ some n
    → (n ≡ t + length (same_items ps)) × (n < 2 ^ 64) × All IsSized ps
unfolding same_total
same_total_inv [] t n h e = (ground arith, ground arith, tt)
same_total_inv (p ∷ ps) t n h e =
    let (k, e₁, r₁) = >>=-eq-some (item_len_len (length p)) _ e in
    let (t₁, e₂, r₂) = >>=-eq-some (checked_add t k) _ r₁ in
    let (t₂, e₃, r₃) = >>=-eq-some (checked_add t₁ (length p)) _ r₂ in
    let (q₂, h₂) = checked_add_inv t k t₁ e₂ in
    let (q₃, h₃) = checked_add_inv t₁ (length p) t₂ e₃ in
    let (q, hn, hs) = same_total_inv ps t₂ n (omega arith) r₃ in
    (
      omega (arith, length-same_item p (same_items ps) k e₁),
      hn,
      (record { field = k; field_eq = e₁ }, hs),
    )

pub flows_total_inv :
    (fs : List ℕ) (t n : ℕ)
    → t < 2 ^ 64
    → flows_total t fs ≡ some n
    → (n ≡ t + length (dict_flows fs)) × (n < 2 ^ 64)
unfolding flows_total
flows_total_inv [] t n h e = (ground arith, ground arith)
flows_total_inv (f ∷ fs) t n h e =
    let (t₁, e₁, r₁) = >>=-eq-some (checked_add t 2) _ e in
    let (q₁, h₁) = checked_add_inv t 2 t₁ e₁ in
    let (q, hn) = flows_total_inv fs t₁ n (omega arith) r₁ in (omega arith, hn)

abbrev pub AllSized : List (ℕ × Bytes) → Type 0
AllSized [] = Unit {0}
AllSized ((idx, p) ∷ items) = IsSized p × AllSized items

pub items_total_inv :
    (items : List (ℕ × Bytes)) (t n : ℕ)
    → t < 2 ^ 64
    → items_total t items ≡ some n
    → (n ≡ t + length (dict_items items)) × (n < 2 ^ 64) × AllSized items
unfolding items_total
items_total_inv [] t n h e = (ground arith, ground arith, tt)
items_total_inv ((idx, p) ∷ items) t n h e =
    let (t₀, e₀, r₀) = >>=-eq-some (checked_add t 1) _ e in
    let (k, e₁, r₁) = >>=-eq-some (item_len_len (length p)) _ r₀ in
    let (t₁, e₂, r₂) = >>=-eq-some (checked_add t₀ k) _ r₁ in
    let (t₂, e₃, r₃) = >>=-eq-some (checked_add t₁ (length p)) _ r₂ in
    let (q₀, h₀) = checked_add_inv t 1 t₀ e₀ in
    let (q₂, h₂) = checked_add_inv t₀ k t₁ e₂ in
    let (q₃, h₃) = checked_add_inv t₁ (length p) t₂ e₃ in
    let (q, hn, hs) = items_total_inv items t₂ n (omega arith) r₃ in
    (
      omega (arith, length-same_item p (dict_items items) k e₁),
      hn,
      (record { field = k; field_eq = e₁ }, hs),
    )

-- Payloads of one length.
pub length-equal_items :
    (ps : List Bytes) (n : ℕ)
    → any_other_len n ps ≡ false
    → (length (equal_items ps) ≡ n * length ps) × All (λ p. length p ≡ n) ps
unfolding any_other_len
length-equal_items [] n h = (omega arith, tt)
length-equal_items (p ∷ ps) n h =
    let hp : length p ≡ n = ground arith in
    let hr : any_other_len n ps ≡ false = ground arith in
    let (q, hs) = length-equal_items ps n hr in
    (omega (arith, length-append p (equal_items ps)), (hp, hs))
