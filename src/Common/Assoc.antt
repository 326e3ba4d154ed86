-- ===== src/Common/Assoc.antt =====
-- What the code takes from Rust's `HashMap` with `u32` keys, as an association list without repeated
-- keys: `get`, `remove` (as the map that is left) and `contains_key`.
use Prim.Native.Nat.{ℕ, ◌+◌}
use mathlib.Core.Option.{Option, none, some}
use mathlib.Core.List.{List, [], ◌∷◌}
use my_quic.Common.Tests.{◌==◌, if◌then◌else◌}

module _ {ℓ} {V : Type ℓ} where
  unfoldable pub lookup : ℕ → List (ℕ × V) → Option V
  lookup k [] = none
  lookup k ((j, v) ∷ m) = if j == k then some v else lookup k m

  unfoldable pub erase : ℕ → List (ℕ × V) → List (ℕ × V)
  erase k [] = []
  erase k ((j, v) ∷ m) = if j == k then m else (j, v) ∷ erase k m

  -- How often a key occurs.
  unfoldable pub occurs : ℕ → List (ℕ × V) → ℕ
  occurs k [] = 0
  occurs k ((j, v) ∷ m) = (if j == k then 1 else 0) + occurs k m
