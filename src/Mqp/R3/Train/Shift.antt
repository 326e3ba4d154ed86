-- ===== src/Mqp/R3/Train/Shift.antt =====
-- src/mqp/r3.rs: a sized item that the decoder's walk passes over is read by the iterator, which
-- sees the frame from a later byte on.
use my_quic.Common.{
  ℕ, zero, suc, ◌+◌, ◌-◌, ◌^◌, ◌≤◌, ◌<◌, ◌≡◌, refl, ap, sym, ◌∙◌, false, some, [], ◌∷◌, arith, leb,
  ◌==◌, le→leb, leb→le, ==→eq, length, length-drop, drop, drop-drop, take, get_elem?, Bool-cases,
  inl, inr,
}
use my_quic.Common.Bytes.{Bytes, checked_add, checked_add_ok, get_range, from_le}
use my_quic.Mqp.Error.{ok, ok_or, guard, >>=-eq-ok, ok_or_inv, guard_inv, ok_injective}
use my_quic.Mqp.R3.Field.{get_item_len, get_u16, item_len_at, item_len_escape}
use my_quic.Mqp.R3.Train.Decode.{walk_item}
use my_quic.Mqp.R3.Train.Items.{sized_item}

pub get_elem?-drop_add : (b : Bytes) (p j : ℕ) → get_elem? (drop p b) j ≡ get_elem? b (p + j)
get_elem?-drop_add b zero j = ap (get_elem? b) (omega arith)
get_elem?-drop_add [] (suc p) j = refl
get_elem?-drop_add (x ∷ b) (suc p) j =
    let e : suc (p + j) ≡ suc p + j = omega arith in
    get_elem?-drop_add b p j ∙ ap (get_elem? (x ∷ b)) e

get_range_inv :
    (b s : Bytes) (i j : ℕ)
    → get_range b i j ≡ some s
    → (i ≤ j) × (j ≤ length b) × (s ≡ take (j - i) (drop i b))
unfolding get_range
get_range_inv b s i j e = ground arith

get_range_within :
    (b : Bytes) (i j : ℕ) → i ≤ j → j ≤ length b → get_range b i j ≡ some (take (j - i) (drop i b))
unfolding get_range
get_range_within b i j h h' = rw (le→leb i j h, le→leb j (length b) h')

get_range-drop :
    (b : Bytes) (p i j : ℕ) (s : Bytes)
    → get_range b (p + i) (p + j) ≡ some s
    → get_range (drop p b) i j ≡ some s
get_range-drop b p i j s e =
    let (h₁, h₂, h₃) = get_range_inv b s (p + i) (p + j) e in
    let l = length-drop p b in
    let d : p + j - (p + i) ≡ j - i = omega arith in
    get_range_within (drop p b) i j (omega arith) (omega arith)
    ∙ ap (λ l. some (take (j - i) l)) (sym (drop-drop p i (p + i) b refl))
    ∙ ap (λ n. some (take n (drop (p + i) b))) (sym d)
    ∙ ap some (sym h₃)

checked_add_inv : (a b c : ℕ) → checked_add a b ≡ some c → (c ≡ a + b) × (a + b < 2 ^ 64)
checked_add_inv a b c e = ground arith

item_len_at_long :
    (b s : Bytes) (j : ℕ)
    → get_elem? b j ≡ some 0xFF
    → get_range b (j + 1) (j + 1 + 2) ≡ some s
    → j + 3 < 2 ^ 64
    → item_len_at b j ≡ some (from_le s, j + 1 + 2)
unfolding item_len_at item_len_escape
item_len_at_long b s j h g small = ground (arith, h, checked_add_ok (j + 1) 2 (omega arith), g)

item_len_at_short :
    (b : Bytes) (j first : ℕ)
    → get_elem? b j ≡ some first
    → (first == 0xFF) ≡ false
    → item_len_at b j ≡ some (first, j + 1)
unfolding item_len_at
item_len_at_short b j first h t = ground (arith, h, t)

-- A length field that the walk reads at `p + j`, seen from `p`.
record LenAt (b : Bytes) (p j len q : ℕ) : Type 0 where
  width : ℕ
  width_pos : 1 ≤ width
  behind : q ≡ p + j + width
  seen : item_len_at (drop p b) j ≡ some (len, j + width)

get_u16-LenAt :
    (b : Bytes) (p j len q : ℕ)
    → get_elem? b (p + j) ≡ some 0xFF
    → get_u16 b (p + j + 1) ≡ ok (len, q)
    → LenAt b p j len q
unfolding get_u16
get_u16-LenAt b p j len q h e =
    let (end, e₁, r₁) = >>=-eq-ok (ok_or (checked_add (p + j + 1) 2) _) _ e in
    let (s, e₂, r₂) = >>=-eq-ok (ok_or (get_range b (p + j + 1) end) _) _ r₁ in
    let (q₁, h₁) = checked_add_inv (p + j + 1) 2 end (ok_or_inv _ _ end e₁) in
    let r = ok_injective r₂ in
    let i₁ : p + j + 1 ≡ p + (j + 1) = omega arith in
    let i₂ : end ≡ p + (j + 1 + 2) = omega arith in
    let g₀ : get_range b (p + j + 1) end ≡ some s = ok_or_inv _ _ s e₂ in
    let g : get_range b (p + (j + 1)) (p + (j + 1 + 2)) ≡ some s = rw (i₁, i₂) at g₀ in
    let g' = get_range-drop b p (j + 1) (j + 1 + 2) s g in
    let el : from_le s ≡ len = ap (λ x. x.0) r in
    let j₃ : j + 1 + 2 ≡ j + 3 = omega arith in
    record {
      width = 3;
      width_pos = omega arith;
      behind = omega (arith, ap (λ x. x.1) r);
      seen =
          item_len_at_long (drop p b) s j (get_elem?-drop_add b p j ∙ h) g' (omega arith)
          ∙ ap (λ n. some (n, j + 1 + 2)) el
          ∙ ap (λ n. some (len, n)) j₃;
    }

get_item_len-LenAt :
    (b : Bytes) (p j len q : ℕ) → get_item_len b (p + j) ≡ ok (len, q) → LenAt b p j len q
unfolding get_item_len
get_item_len-LenAt b p j len q e =
    let (first, e₀, r₀) = >>=-eq-ok (ok_or (get_elem? b (p + j)) _) _ e in
    let h = ok_or_inv _ _ first e₀ in
    elim (Bool-cases (first == 0xFF)) [
      | inl t ↦ get_u16-LenAt b p j len q (h ∙ ap some (==→eq first 0xFF t)) (rw t at r₀)
      | inr t ↦
          let r = ok_injective (rw t at r₀) in
          let el : first ≡ len = ap (λ x. x.0) r in
          record {
            width = 1;
            width_pos = omega arith;
            behind = sym (ap (λ x. x.1) r);
            seen =
                item_len_at_short (drop p b) j first (get_elem?-drop_add b p j ∙ h) t
                ∙ ap (λ n. some (n, j + 1)) el;
          }
    ]

-- A sized item that the walk passes over from `p + j` to `end`, seen from `p`.
pub record ItemAt (b : Bytes) (p j end : ℕ) : Type 0 where
  pub payload : Bytes
  pub read : sized_item (drop p b) j ≡ some (payload, drop end b)
  pub before : p + j < end
  pub inside : end ≤ length b

pub walk_item-ItemAt : (b : Bytes) (p j end : ℕ) → walk_item b (p + j) ≡ ok end → ItemAt b p j end
unfolding walk_item sized_item
walk_item-ItemAt b p j end e =
    let ((len, q), e₁, r₁) = >>=-eq-ok (get_item_len b (p + j)) _ e in
    let (end', e₂, r₂) = >>=-eq-ok (ok_or (checked_add q len) _) _ r₁ in
    let (u₃, e₃, r₃) = >>=-eq-ok (guard (leb end' (length b)) _) _ r₂ in
    let s = get_item_len-LenAt b p j len q e₁ in
    let (h₁, h₂) = checked_add_inv q len end' (ok_or_inv _ _ end' e₂) in
    let h₃ = leb→le end' (length b) (guard_inv _ _ u₃ e₃) in
    let h₄ : end' ≡ end = ok_injective r₃ in
    let i = j + s.width in
    let w = s.width_pos in
    let bh = s.behind in
    let l = length-drop p b in
    let g = get_range_within (drop p b) i (i + len) (omega arith) (omega arith) in
    let d : drop (i + len) (drop p b) ≡ drop end b =
      sym (drop-drop p (i + len) end b (omega arith)) in
    record {
      payload = take (i + len - i) (drop i (drop p b));
      read = rw (s.seen, checked_add_ok i len (omega arith), g, d) refl;
      before = omega arith;
      inside = omega arith;
    }
