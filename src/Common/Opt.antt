-- ===== src/Common/Opt.antt =====
-- Chains of steps that may refuse: `?` on an `Option`, and `if !test { return None }`.
use my_quic.Common.{Option, none, some, Bool, true, false, ◌≡◌, refl}

abbrev pub ◌>>=◌ {ℓ κ} : {A : Type ℓ} {B : Type κ} → Option A → (A → Option B) → Option B
none >>= next_step = none
some value >>= next_step = next_step value

-- A test that ends the chain where it fails.
abbrev pub require : Bool → Option (Unit {0})
require false = none
require true = some tt

infixl 5 ◌>>=◌ ◌>>◌
abbrev pub ◌>>◌ {ℓ} : {B : Type ℓ} → Option (Unit {0}) → Option B → Option B
test >> rest = test >>= λ _. rest

-- Inversion of a chain that returned something.
module _ {ℓ κ} {A : Type ℓ} {B : Type κ} where
  pub >>=-eq-some :
      (step : Option A) (rest : A → Option B) {last : B}
      → (step >>= rest) ≡ some last
      → (value : A) × (step ≡ some value) × (rest value ≡ some last)
  >>=-eq-some none rest h = cc
  >>=-eq-some (some value) rest h = (value, refl, h)
