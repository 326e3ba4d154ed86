-- ===== src/Common/Bytes.antt =====
-- What the code takes from Rust's slices and machine integers: `get`, `get(a..b)`, byte orders,
-- checked arithmetic on a 64-bit `usize`. A byte slice is a list of numbers below 256.
use Prim.Native.Nat.{ℕ, zero, suc, ◌+◌, ◌-◌, ◌*◌, ◌/◌, ◌%◌, ◌^◌, ◌≤◌, ◌<◌}
use mathlib.Core.Path.{◌≡◌, refl, ap, ◌∙◌}
use mathlib.Core.Bool.{◌&&◌}
use mathlib.Core.Option.{Option, none, some}
use mathlib.Core.List.{List, [], ◌∷◌, ◌++◌}
use native.Mathlib.Omega.{arith}
use my_quic.Common.Tests.{ltb, leb, if◌then◌else◌, le→leb, lt→ltb}
use my_quic.Common.Lists.{
  length, take, drop, get_elem?, All, length-drop, take-append_left, drop-append_left, drop-drop,
}

abbrev pub IsByte : ℕ → Type 0
IsByte b = b < 256

abbrev pub Bytes : Type 0
Bytes = List ℕ

abbrev pub IsBytes : Bytes → Type 0
IsBytes = All IsByte

-- `a.checked_add(b)` and `a.checked_mul(b)` on `usize`.
abbrev pub checked_add : ℕ → ℕ → Option ℕ
checked_add a b = if ltb (a + b) (2 ^ 64) then some (a + b) else none

abbrev pub checked_mul : ℕ → ℕ → Option ℕ
checked_mul a b = if ltb (a * b) (2 ^ 64) then some (a * b) else none

-- `b.get(off..end)`.
unfoldable pub get_range : Bytes → ℕ → ℕ → Option Bytes
get_range b off end =
    if leb off end && leb end (length b) then some (take (end - off) (drop off b)) else none

-- `from_le_bytes` and `from_be_bytes` of a slice of any length.
abbrev pub from_le : Bytes → ℕ
from_le [] = 0
from_le (x ∷ xs) = x + 256 * from_le xs

abbrev pub u16_from_be : ℕ → ℕ → ℕ
u16_from_be hi lo = 256 * hi + lo

-- `b[i]`, behind a test that the slice is long enough.
abbrev pub index : Bytes → ℕ → ℕ
index [] i = 0
index (x ∷ xs) zero = x
index (x ∷ xs) (suc i) = index xs i

abbrev pub u16_le : ℕ → Bytes
u16_le n = (n % 256) ∷ (n / 256 % 256) ∷ []

abbrev pub u16_be : ℕ → Bytes
u16_be n = (n / 256 % 256) ∷ (n % 256) ∷ []

abbrev pub u32_le : ℕ → Bytes
u32_le n = (n % 256) ∷ (n / 256 % 256) ∷ (n / 65536 % 256) ∷ (n / 16777216 % 256) ∷ []

-- A buffer that continues with `front` at an offset: the ranged read gives `front`, and the buffer
-- goes on behind it.
pub get_range_ok :
    (b : Bytes) (off k : ℕ) (front rest : Bytes)
    → drop off b ≡ front ++ rest
    → k ≡ length front
    → off + k ≤ length b
    → get_range b off (off + k) ≡ some front
unfolding get_range
get_range_ok b off k front rest e hk hb =
    let e₁ : off + k - off ≡ k = omega arith in
    rw (le→leb off (off + k) (omega arith), le→leb (off + k) (length b) hb, e₁, e)
      (ap some (take-append_left k front rest hk))

pub get_range_two :
    (b : Bytes) (off : ℕ) (x y : ℕ) (rest : Bytes)
    → drop off b ≡ x ∷ y ∷ rest
    → get_range b off (off + 2) ≡ some (x ∷ y ∷ [])
get_range_two b off x y rest e =
    get_range_ok b off 2 (x ∷ y ∷ []) rest e (omega arith)
      (omega (arith, ap length e, length-drop off b))

pub get_range_four :
    (b : Bytes) (off : ℕ) (x y z w : ℕ) (rest : Bytes)
    → drop off b ≡ x ∷ y ∷ z ∷ w ∷ rest
    → get_range b off (off + 4) ≡ some (x ∷ y ∷ z ∷ w ∷ [])
get_range_four b off x y z w rest e =
    get_range_ok b off 4 (x ∷ y ∷ z ∷ w ∷ []) rest e (omega arith)
      (omega (arith, ap length e, length-drop off b))

pub get_elem?-drop :
    (b : Bytes) (off x : ℕ) (rest : Bytes) → drop off b ≡ x ∷ rest → get_elem? b off ≡ some x
get_elem?-drop [] zero x rest e = cc
get_elem?-drop [] (suc off) x rest e = cc
get_elem?-drop (y ∷ b) zero x rest e = cc
get_elem?-drop (y ∷ b) (suc off) x rest e = get_elem?-drop b off x rest e

-- Stepping over `k` elements that are known.
pub drop_step :
    (b : Bytes) (off k : ℕ) (front rest : Bytes)
    → drop off b ≡ front ++ rest
    → k ≡ length front
    → drop (off + k) b ≡ rest
drop_step b off k front rest e hk =
    drop-drop off k (off + k) b refl ∙ ap (drop k) e ∙ drop-append_left k front rest hk

pub u16_le_lem : (n : ℕ) → n < 65536 → from_le (u16_le n) ≡ n
u16_le_lem n h = omega arith

pub u32_le_lem : (n : ℕ) → n < 2 ^ 32 → from_le (u32_le n) ≡ n
u32_le_lem n h = omega arith

pub u16_le-IsBytes : (n : ℕ) → IsBytes (u16_le n)
u16_le-IsBytes n = omega arith

pub u32_le-IsBytes : (n : ℕ) → IsBytes (u32_le n)
u32_le-IsBytes n = omega arith

pub checked_add_ok : (a b : ℕ) → a + b < 2 ^ 64 → checked_add a b ≡ some (a + b)
checked_add_ok a b h = rw (lt→ltb _ _ h)

pub u16_be-IsBytes : (n : ℕ) → IsBytes (u16_be n)
u16_be-IsBytes n = omega arith
