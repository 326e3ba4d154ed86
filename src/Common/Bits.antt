-- ===== src/Common/Bits.antt =====
-- The masks of the wire as arithmetic: two functions that agree on every value of a finite range.
use Prim.Native.Nat.{ℕ, zero, suc, ◌*◌, ◌/◌, ◌%◌, ◌<◌, bit_and, bit_or}
use mathlib.Core.Path.{◌≡◌, refl}
use mathlib.Core.Bool.{Bool, true, false}
use native.Mathlib.Omega.{arith}
use my_quic.Common.Tests.{◌==◌, if◌then◌else◌}

-- The values of `f` and `g` are compared from `n - 1` down.
agree : (f g : ℕ → ℕ) → ℕ → Bool
agree f g zero = true
agree f g (suc n) = let rest = agree f g n in if f n == g n then rest else false

module _ (f g : ℕ → ℕ) where
  agree_at : (b n : ℕ) → agree f g n ≡ true → b < n → f b ≡ g b
  unfolding agree
  agree_at b zero same lt = absurd (omega arith)
  agree_at b (suc n) same lt = ground (arith, agree_at b n)

class_same : agree (λ b. bit_and b 0xC0) (λ b. b / 64 * 64) 256 ≡ true
unfolding agree
class_same = refl

-- The frame class is the top two bits.
pub bit_and_class : (b : ℕ) → b < 256 → bit_and b 0xC0 ≡ b / 64 * 64
bit_and_class b = agree_at (λ b. bit_and b 0xC0) (λ b. b / 64 * 64) b 256 class_same

low6_same : agree (λ b. bit_and b 0x3F) (λ b. b % 64) 256 ≡ true
unfolding agree
low6_same = refl

pub bit_and_low6 : (b : ℕ) → b < 256 → bit_and b 0x3F ≡ b % 64
bit_and_low6 b = agree_at (λ b. bit_and b 0x3F) (λ b. b % 64) b 256 low6_same

mid_same : agree (λ b. bit_and b 0x30) (λ b. b / 16 % 4 * 16) 256 ≡ true
unfolding agree
mid_same = refl

pub bit_and_mid : (b : ℕ) → b < 256 → bit_and b 0x30 ≡ b / 16 % 4 * 16
bit_and_mid b = agree_at (λ b. bit_and b 0x30) (λ b. b / 16 % 4 * 16) b 256 mid_same

nibble_same : agree (λ b. bit_and b 0x0F) (λ b. b % 16) 256 ≡ true
unfolding agree
nibble_same = refl

pub bit_and_nibble : (b : ℕ) → b < 256 → bit_and b 0x0F ≡ b % 16
bit_and_nibble b = agree_at (λ b. bit_and b 0x0F) (λ b. b % 16) b 256 nibble_same

join_same : agree (λ n. bit_or (n / 256 * 256) (n % 256)) (λ n. n) 16384 ≡ true
unfolding agree
join_same = refl

-- A 14-bit id is the or of its high part, shifted, and its low byte.
pub bit_or_join : (n : ℕ) → n < 16384 → bit_or (n / 256 * 256) (n % 256) ≡ n
bit_or_join n = agree_at (λ n. bit_or (n / 256 * 256) (n % 256)) (λ n. n) n 16384 join_same
