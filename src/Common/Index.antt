-- ===== src/Common/Index.antt =====
-- Lists read at an index.
use Prim.Native.Nat.{ℕ, zero, suc, ◌+◌, ◌<◌}
use mathlib.Core.Path.{◌≡◌, refl, ap}
use mathlib.Core.List.{List, [], ◌∷◌, ◌++◌}
use mathlib.Core.Option.{some}
use native.Mathlib.Omega.{arith}
use my_quic.Common.Lists.{length, get_elem?, take, drop}

module _ {ℓ} {A : Type ℓ} where
  pub get_elem?-lt : (i : ℕ) (xs : List A) {x : A} → get_elem? xs i ≡ some x → i < length xs
  get_elem?-lt i [] h = cc
  get_elem?-lt zero (x ∷ xs) h = omega arith
  get_elem?-lt (suc i) (x ∷ xs) h = omega (arith, get_elem?-lt i xs h)

  pub get_elem?-some : (i : ℕ) (xs : List A) → i < length xs → (x : A) × (get_elem? xs i ≡ some x)
  get_elem?-some i [] h = absurd (omega arith)
  get_elem?-some zero (x ∷ xs) h = (x, refl)
  get_elem?-some (suc i) (x ∷ xs) h = get_elem?-some i xs (omega arith)

  pub get_elem?-append_left :
      (xs ys : List A) (j : ℕ) → j < length xs → get_elem? (xs ++ ys) j ≡ get_elem? xs j
  get_elem?-append_left [] ys j h = absurd (omega arith)
  get_elem?-append_left (x ∷ xs) ys zero h = refl
  get_elem?-append_left (x ∷ xs) ys (suc j) h = get_elem?-append_left xs ys j (omega arith)

  pub get_elem?-append_right :
      (xs ys : List A) (j k : ℕ) → j ≡ length xs + k → get_elem? (xs ++ ys) j ≡ get_elem? ys k
  get_elem?-append_right [] ys j k h = ap (get_elem? ys) (omega arith)
  get_elem?-append_right (x ∷ xs) ys zero k h = absurd (omega arith)
  get_elem?-append_right (x ∷ xs) ys (suc j) k h = get_elem?-append_right xs ys j k (omega arith)

  pub get_elem?-take :
      (n : ℕ) (xs : List A) (j : ℕ) → j < n → get_elem? (take n xs) j ≡ get_elem? xs j
  get_elem?-take zero xs j h = absurd (omega arith)
  get_elem?-take (suc n) [] j h = refl
  get_elem?-take (suc n) (x ∷ xs) zero h = refl
  get_elem?-take (suc n) (x ∷ xs) (suc j) h = get_elem?-take n xs j (omega arith)

  pub get_elem?-drop_at :
      (n : ℕ) (xs : List A) (j k : ℕ) → j ≡ n + k → get_elem? (drop n xs) k ≡ get_elem? xs j
  get_elem?-drop_at zero xs j k h = ap (get_elem? xs) (omega arith)
  get_elem?-drop_at (suc n) [] zero k h = refl
  get_elem?-drop_at (suc n) [] (suc j) k h = refl
  get_elem?-drop_at (suc n) (x ∷ xs) zero k h = absurd (omega arith)
  get_elem?-drop_at (suc n) (x ∷ xs) (suc j) k h = get_elem?-drop_at n xs j k (omega arith)

  -- Lists with the same entries are equal.
  pub list_ext : (xs ys : List A) → ((j : ℕ) → get_elem? xs j ≡ get_elem? ys j) → xs ≡ ys
  list_ext [] [] h = refl
  list_ext [] (y ∷ ys) h = absurd (cc (h 0))
  list_ext (x ∷ xs) [] h = absurd (cc (h 0))
  list_ext (x ∷ xs) (y ∷ ys) h = let tails = list_ext xs ys (λ j. h (suc j)) in cc (h 0, tails)
