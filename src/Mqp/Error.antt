-- ===== src/Mqp/Error.antt =====
-- src/mqp/error.rs: the error values of the codec, and the chain of fallible steps (`?`).
use my_quic.Common.{ℕ, ◌≡◌, refl, String, Option, none, some, Bool, true, false}

-- The payloads are the static texts of the source.
pub data MqpError : Type 0 where
  malformed : String → MqpError
  refused : String → MqpError
  bad_atyp : ℕ → MqpError
  bad_bnd_atyp : ℕ → MqpError
  bad_domain_utf8 : MqpError
  bad_batch_count : ℕ → MqpError

pub data Result {ℓ} (A : Type ℓ) : Type ℓ where
  ok : A → Result A
  err : MqpError → Result A

-- The `?` operator: an error ends the chain.
abbrev pub ◌>>=◌ {ℓ κ} : {A : Type ℓ} {B : Type κ} → Result A → (A → Result B) → Result B
err refusal >>= next_step = err refusal
ok value >>= next_step = next_step value

-- `.ok_or(e)?`
abbrev pub ok_or {ℓ} : {A : Type ℓ} → Option A → MqpError → Result A
ok_or none e = err e
ok_or (some a) e = ok a

-- `if !test { return Err(e) }`
abbrev pub guard : Bool → MqpError → Result (Unit {0})
guard false refusal = err refusal
guard true refusal = ok tt

infixl 5 ◌>>=◌ ◌>>◌
-- A test in front of the rest of the chain.
abbrev pub ◌>>◌ {ℓ} : {B : Type ℓ} → Result (Unit {0}) → Result B → Result B
test >> rest = test >>= λ _. rest

-- `.ok()`
abbrev pub to_option {ℓ} : {A : Type ℓ} → Result A → Option A
to_option (ok a) = some a
to_option (err e) = none

-- Inversion of a chain that succeeded, and of its steps.
module _ {ℓ κ} {A : Type ℓ} {B : Type κ} where
  pub >>=-eq-ok :
      (step : Result A) (rest : A → Result B) {last : B}
      → (step >>= rest) ≡ ok last
      → (value : A) × (step ≡ ok value) × (rest value ≡ ok last)
  >>=-eq-ok (err refusal) rest h = cc
  >>=-eq-ok (ok value) rest h = (value, refl, h)

pub to_option-eq-some {ℓ} : {A : Type ℓ} (r : Result A) {a : A} → to_option r ≡ some a → r ≡ ok a
to_option-eq-some (ok a) h = cc
to_option-eq-some (err e) h = cc

pub guard_inv : (t : Bool) (e : MqpError) (u : Unit {0}) → guard t e ≡ ok u → t ≡ true
guard_inv true e u h = refl
guard_inv false e u h = cc

pub ok_or_inv {ℓ} :
    {A : Type ℓ} (o : Option A) (e : MqpError) (a : A) → ok_or o e ≡ ok a → o ≡ some a
ok_or_inv none e a h = cc
ok_or_inv (some x) e a h = cc

pub ok_injective {ℓ} : {A : Type ℓ} {a b : A} → ok a ≡ ok b → a ≡ b
ok_injective h = cc
