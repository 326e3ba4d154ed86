-- ===== src/Mqp/R3/Train/Yields.antt =====
-- src/mqp/r3.rs: what the iterator gives for a frame that `decode_train` lets through.
use my_quic.Common.{
  ℕ, zero, suc, ◌+◌, ◌*◌, ◌≤◌, ◌<◌, ◌≡◌, refl, ap, sym, subst, ◌∙◌, true, false, not, ◌&&◌, some,
  List, [], ◌∷◌, ◌++◌, arith, leb, ltb, ◌==◌, ltb→lt, ==→eq, eq→==, length, length-drop, drop, take,
  get_elem?, All, append-nil, append_assoc, take-append-drop, length-take,
}
use my_quic.Common.Bytes.{Bytes, checked_add, checked_mul, index}
use my_quic.Mqp.Error.{ok, ok_or, guard, >>=-eq-ok, ok_or_inv, guard_inv, ok_injective}
use my_quic.Mqp.R3.Fid.{valid_fid}
use my_quic.Mqp.R3.Field.{get_u16, get_item_len}
use my_quic.Mqp.R3.Train.{TrainFrame}
use my_quic.Mqp.R3.Train.Encode.{contains, fids_ok}
use my_quic.Mqp.R3.Train.Decode.{walk_item, walk_same, walk_dict, read_flows, equal_body}
use my_quic.Mqp.R3.Train.Items.{
  TrainItems, items, next, collect, collect_step, collect_spent, all_items, Gives,
}
use my_quic.Mqp.R3.Train.Same.{same_state, next-same_state}
use my_quic.Mqp.R3.Train.Equal.{equal_state, next-equal_state}
use my_quic.Mqp.R3.Train.Dict.{dict_state, next-dict_state}
use my_quic.Mqp.R3.Train.Shift.{ItemAt, walk_item-ItemAt, get_elem?-drop_add}

-- So many items, each of a flow of the list.
abbrev pub IsOf : List ℕ → ℕ → List (ℕ × Bytes) → Type 0
IsOf flows n its = (length its ≡ n) × All (λ it. contains flows it.0 ≡ true) its

IsOf-cons :
    (flows : List ℕ) (n id : ℕ) (p : Bytes) (l its : List (ℕ × Bytes))
    → l ≡ (id, p) ∷ its
    → contains flows id ≡ true
    → IsOf flows n its
    → IsOf flows (suc n) l
IsOf-cons flows n id p l its e h (hl, hs) = rw e (ap suc hl, (h, hs))

none-IsOf : (flows : List ℕ) (s : TrainItems) → s.remaining ≡ 0 → IsOf flows 0 (collect 1 s)
none-IsOf flows s h = subst (IsOf flows 0) (sym (collect_spent 0 s h)) (refl, tt)

contains-head : (f : ℕ) (fs : List ℕ) → contains (f ∷ fs) f ≡ true
contains-head f fs = rw (eq→== f f refl)

contains-index : (fs : List ℕ) (i : ℕ) → i < length fs → contains fs (index fs i) ≡ true
contains-index [] i h = absurd (omega arith)
contains-index (f ∷ fs) zero h = ground arith
contains-index (f ∷ fs) (suc i) h = ground (arith, contains-index fs i (omega arith))

walk_item_at : (b : Bytes) (p end : ℕ) → walk_item b p ≡ ok end → ItemAt b p 0 end
walk_item_at b p end e = let z : p ≡ p + 0 = omega arith in walk_item-ItemAt b p 0 end (rw z at e)

pub walk_same-IsOf :
    (n : ℕ) (b : Bytes) (p q fid : ℕ)
    → walk_same n b p ≡ ok q
    → IsOf (fid ∷ []) n (collect (suc n) (same_state fid n (drop p b)))
unfolding walk_same collect same_state
walk_same-IsOf zero b p q fid e = none-IsOf (fid ∷ []) (same_state fid 0 (drop p b)) refl
walk_same-IsOf (suc n) b p q fid e =
    let (end, e₁, r₁) = >>=-eq-ok (walk_item b p) _ e in
    let s = walk_item_at b p end e₁ in
    IsOf-cons (fid ∷ []) n fid s.payload _ _
      (collect_step (suc n) _ _ (fid, s.payload)
        (next-same_state fid n (drop p b) s.payload (drop end b) s.read))
      (contains-head fid []) (walk_same-IsOf n b end q fid r₁)

ltb→not-leb : (a b : ℕ) → ltb a b ≡ true → leb b a ≡ false
ltb→not-leb a b h = ground arith

pub walk_dict-IsOf :
    (n : ℕ) (fs : List ℕ) (b : Bytes) (p q : ℕ)
    → walk_dict n (length fs) b p ≡ ok q
    → IsOf fs n (collect (suc n) (dict_state fs n (drop p b)))
unfolding walk_dict collect dict_state
walk_dict-IsOf zero fs b p q e = none-IsOf fs (dict_state fs 0 (drop p b)) refl
walk_dict-IsOf (suc n) fs b p q e =
    let (i, e₀, r₀) = >>=-eq-ok (ok_or (get_elem? b p) _) _ e in
    let (u, e₁, r₁) = >>=-eq-ok (guard (ltb i (length fs)) _) _ r₀ in
    let (end, e₂, r₂) = >>=-eq-ok (walk_item b (p + 1)) _ r₁ in
    let lt = guard_inv _ _ u e₁ in
    let s = walk_item-ItemAt b p 1 end e₂ in
    IsOf-cons fs n (index fs i) s.payload _ _
      (collect_step (suc n) _ _ (index fs i, s.payload)
        (next-dict_state fs n i (drop p b) s.payload (drop end b)
          (get_elem?-drop_add b p 0 ∙ ap (get_elem? b) (omega arith) ∙ ok_or_inv _ _ i e₀)
          (ltb→not-leb i (length fs) lt) s.read))
      (contains-index fs i (ltb→lt i (length fs) lt)) (walk_dict-IsOf n fs b end q r₂)

pub read_flows_inv :
    (n : ℕ) (b : Bytes) (off off' : ℕ) (seen fs : List ℕ)
    → read_flows n b off seen ≡ ok (fs, off')
    → (more : List ℕ) × (fs ≡ seen ++ more) × (length more ≡ n) × (fids_ok seen more ≡ true)
unfolding read_flows fids_ok
read_flows_inv zero b off off' seen fs e =
    ([], sym (ap (λ r. r.0) (ok_injective e)) ∙ sym (append-nil seen), refl, refl)
read_flows_inv (suc n) b off off' seen fs e =
    let ((f, off₁), e₁, r₁) = >>=-eq-ok (get_u16 b off) _ e in
    let (u, e₂, r₂) = >>=-eq-ok (guard (valid_fid f && not (contains seen f)) _) _ r₁ in
    let (more, h₁, h₂, h₃) = read_flows_inv n b off₁ off' (seen ++ f ∷ []) fs r₂ in
    let g = guard_inv _ _ u e₂ in
    (f ∷ more, h₁ ∙ append_assoc seen (f ∷ []) more, ap suc h₂, rw g h₃)

-- What a decoded train promises: 1 to 64 items, a dictionary of distinct valid flow ids, as many
-- as `nfl` says and no more than items, and an iterator that gives every item to one of them and then
-- ends.
pub record Delivers (f : TrainFrame) : Type 0 where
  pub count_pos : 1 ≤ f.count
  pub count_le : f.count ≤ 64
  pub nfl_pos : 1 ≤ f.nfl
  pub nfl_le : f.nfl ≤ f.count
  pub flows_len : length f.flows ≡ f.nfl
  pub flows_ok : fids_ok [] f.flows ≡ true
  pub yields : IsOf f.flows f.count (all_items f)
  pub ends : Gives (items f) (all_items f)

pub collect_equal-IsOf :
    (count n fid : ℕ) (bytes : Bytes)
    → length bytes ≡ count * n
    → IsOf (fid ∷ []) count (collect (suc count) (equal_state fid n count bytes))
unfolding collect equal_state
collect_equal-IsOf zero n fid bytes h = none-IsOf (fid ∷ []) (equal_state fid n 0 bytes) refl
collect_equal-IsOf (suc count) n fid bytes h =
    let p = take n bytes in
    let rest = drop n bytes in
    let m : suc count * n ≡ count * n + n = omega arith in
    let lp : length p ≡ n = omega (arith, length-take n bytes) in
    let lr : length rest ≡ count * n = omega (arith, length-drop n bytes) in
    let e = next-equal_state fid n count p rest lp in
    let e' : next (equal_state fid n (suc count) bytes)
        ≡ (some (fid, p), equal_state fid n count rest) =
      rw (take-append-drop n bytes) at e in
    IsOf-cons (fid ∷ []) count fid p _ _ (collect_step (suc count) _ _ (fid, p) e')
      (contains-head fid []) (collect_equal-IsOf count n fid rest lr)

checked_mul_inv : (a b c : ℕ) → checked_mul a b ≡ some c → c ≡ a * b
checked_mul_inv a b c e = ground arith

checked_add_inv : (a b c : ℕ) → checked_add a b ≡ some c → c ≡ a + b
checked_add_inv a b c e = ground arith

pub equal_body_inv :
    (b : Bytes) (count off n off₁ : ℕ)
    → equal_body b count off ≡ ok (n, off₁)
    → off₁ + count * n ≡ length b
unfolding equal_body
equal_body_inv b count off n off₁ e =
    let ((n', o), e₁, r₁) = >>=-eq-ok (get_item_len b off) _ e in
    let (body, e₂, r₂) = >>=-eq-ok (ok_or (checked_mul count n') _) _ r₁ in
    let (end, e₃, r₃) = >>=-eq-ok (ok_or (checked_add o body) _) _ r₂ in
    let (u₄, e₄, r₄) = >>=-eq-ok (guard (leb end (length b)) _) _ r₃ in
    let (u₅, e₅, r₅) = >>=-eq-ok (guard (end == length b) _) _ r₄ in
    let r = ok_injective r₅ in
    let m = checked_mul_inv count n' body (ok_or_inv _ _ body e₂) in
    let a = checked_add_inv o body end (ok_or_inv _ _ end e₃) in
    let t = ==→eq end (length b) (guard_inv _ _ u₅ e₅) in
    omega (arith, ap (λ x. count * x.0) r, ap (λ x. x.1) r)
