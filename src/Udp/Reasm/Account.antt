-- ===== src/Udp/Reasm/Account.antt =====
-- src/udp/r2_reasm.rs: what the reassembler's counters count: `held`, `order_bytes` and the limits.
pub mod Room
pub mod Taking
pub mod Steps
use my_quic.Common.{
  ℕ, zero, suc, ◌+◌, ◌-◌, ◌*◌, ◌≤◌, ◌<◌, ◌≡◌, refl, ap, ◌∙◌, sym, subst, Bool, true, false, Option,
  none, some, List, [], ◌∷◌, arith, length, All, Bool-cases, inl, inr,
}
use native.Mathlib.Nat.{suc-mul}
use my_quic.Udp.Partial
use my_quic.Udp.Partial.{Layout, Partial, bit, set_bit}
use my_quic.Udp.Partial.Bounded.{Bounded}
use my_quic.Udp.Reasm
use my_quic.Udp.Reasm.{
  FragKey, Parts, R2Reassembler, key_eq, lookup, erase, put, live_at, none_landed, release,
}
use my_quic.Udp.Reasm.Table.{Every, erase-Every}
use my_quic.Udp.Reasm.Accept.{key_eq_refl}

-- What the partials retain together.
abbrev pub footprint : Parts → ℕ
footprint [] = 0
footprint ((k, p) ∷ m) = p.retained + footprint m

-- A partial between fragments, whoever sent them.
pub record Healthy (p : Partial) : Type 0 where
  pub bounded : Bounded p
  pub mask : length p.got ≡ 64
  pub some_landed : none_landed p.got ≡ false
  pub payload_small : p.bytes ≤ 8192
  pub small : p.retained ≤ 65536

-- The counters are exact, and the table and the order are within their limits.
pub record Accounted (l : Layout) (most : ℕ) (r : R2Reassembler) : Type 0 where
  pub each : Every (λ k p. Healthy p) r.parts
  pub same_held : r.held ≡ footprint r.parts
  pub few : length r.parts ≤ 256
  pub slots : r.order_bytes ≡ length r.order * l.order_slot_bytes
  pub few_slots : length r.order ≤ most
  pub budget : r.held + r.order_bytes ≤ 262144 + 65536 + 128

-- No partial has the key.
abbrev pub Absent : FragKey → Parts → Type 0
Absent k = Every (λ j p. key_eq j k ≡ false)

pub lookup-Absent : (k : FragKey) (m : Parts) → lookup k m ≡ none → Absent k m
unfolding lookup
lookup-Absent k [] e = tt
lookup-Absent k ((j, p) ∷ m) e = elim (Bool-cases (key_eq j k)) [
  | inl same ↦ absurd (cc (rw same at e))
  | inr other ↦ (other, lookup-Absent k m (rw other at e))
]

pub erase-Absent : (k : FragKey) (m : Parts) → Absent k m → erase k m ≡ m
unfolding erase
erase-Absent k [] h = refl
erase-Absent k ((j, p) ∷ m) h = rw h.0 (ap (◌∷◌ (j, p)) (erase-Absent k m h.1))

pub put-Absent :
    (k : FragKey) (q : Partial) (m : Parts)
    → Absent k m
    → (footprint (put k q m) ≡ footprint m + q.retained) × (length (put k q m) ≡ suc (length m))
unfolding put
put-Absent k q [] h = (omega arith, refl)
put-Absent k q ((j, p) ∷ m) h =
    let (weight, size) = put-Absent k q m h.1 in rw h.0 (omega (arith, weight), ap suc size)

pub put_present :
    (k : FragKey) (p q : Partial) (m : Parts)
    → lookup k m ≡ some p
    → (footprint (put k q m) + p.retained ≡ footprint m + q.retained)
      × (length (put k q m) ≡ length m)
unfolding lookup put
put_present k p q [] e = absurd (cc)
put_present k p q ((j, x) ∷ m) e = elim (Bool-cases (key_eq j k)) [
  | inl same ↦
      let found : some x ≡ some p = rw same at e in
      let x_is : x ≡ p = cc in
      let weight : x.retained ≡ p.retained = ap (λ (y : Partial). y.retained) x_is in
      rw same (omega (arith, weight), refl)
  | inr other ↦
      let (weight, size) = put_present k p q m (rw other at e) in
      rw other (omega (arith, weight), ap suc size)
]

pub erase_present :
    (k : FragKey) (p : Partial) (m : Parts)
    → lookup k m ≡ some p
    → (footprint (erase k m) + p.retained ≡ footprint m) × (suc (length (erase k m)) ≡ length m)
unfolding lookup erase
erase_present k p [] e = absurd (cc)
erase_present k p ((j, x) ∷ m) e = elim (Bool-cases (key_eq j k)) [
  | inl same ↦
      let found : some x ≡ some p = rw same at e in
      let x_is : x ≡ p = cc in
      let weight : x.retained ≡ p.retained = ap (λ (y : Partial). y.retained) x_is in
      rw same (omega (arith, weight), refl)
  | inr other ↦
      let (weight, size) = erase_present k p m (rw other at e) in
      rw other (omega (arith, weight), ap suc size)
]

pub lookup-put : (k : FragKey) (q : Partial) (m : Parts) → lookup k (put k q m) ≡ some q
unfolding lookup put
lookup-put k q [] = rw (key_eq_refl k) refl
lookup-put k q ((j, p) ∷ m) = elim (Bool-cases (key_eq j k)) [
  | inl same ↦ rw same (rw (key_eq_refl k) refl)
  | inr other ↦ rw other (rw other (lookup-put k q m))
]

pub live_at-lookup :
    (k : FragKey) (t : ℕ) (m : Parts) {p : Partial} → live_at k t m ≡ some p → lookup k m ≡ some p
unfolding live_at
live_at-lookup k t m e = grind arith

pub Healthy-few : (m : Parts) → Every (λ k p. Healthy p) m → footprint m ≤ length m * 65536
Healthy-few [] h = omega arith
Healthy-few ((k, p) ∷ m) h = omega (arith, Healthy-few m h.1, h.0.small, suc-mul (length m) 65536)

module _ (l : Layout) where
  -- A live partial is released.
  pub release-Accounted :
      (most : ℕ) (k : FragKey) (p : Partial) (r : R2Reassembler)
      → lookup k r.parts ≡ some p
      → Accounted l most r
      → Accounted l most (release k p r)
  release-Accounted most k p r e h =
      let (weight, size) = erase_present k p r.parts e in
      record {
        each = erase-Every (λ k p. Healthy p) k r.parts h.each;
        same_held = omega (arith, weight, h.same_held);
        few = omega (arith, size, h.few);
        slots = h.slots;
        few_slots = h.few_slots;
        budget = omega (arith, h.budget);
      }

  -- A slot is used up.
  pub pop-Accounted :
      (most : ℕ) (x : FragKey × ℕ) (order : List (FragKey × ℕ)) (r : R2Reassembler)
      → x ∷ order ≡ r.order
      → Accounted l most r
      → Accounted l most
          (record r { order = order; order_bytes = r.order_bytes - l.order_slot_bytes })
  pop-Accounted most x order r e h =
      let one_more : length r.order ≡ suc (length order) = sym (ap length e) in
      let cost = ap (λ n. n * l.order_slot_bytes) one_more in
      record {
        each = h.each;
        same_held = h.same_held;
        few = h.few;
        slots = omega (arith, h.slots, cost, suc-mul (length order) l.order_slot_bytes);
        few_slots = omega (arith, one_more, h.few_slots);
        budget = omega (arith, h.budget);
      }
