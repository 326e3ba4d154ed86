-- ===== src/Mqp/Flow/Registry/Tally.antt =====
-- src/mqp/r2_flow.rs: what the indexes of a registry count, and what taking one binding out changes.
use my_quic.Common.{
  ℕ, suc, ◌+◌, ◌≤◌, ◌≡◌, refl, Bool, true, false, ◌&&◌, ◌||◌, none, some, List, [], ◌∷◌, ◌==◌,
  if◌then◌else◌, length, All, arith, Bool-cases, inl, inr,
}
use my_quic.Common.Assoc.{lookup, erase, occurs}
use my_quic.Mqp.R2.{wire_id_server_owned}
use my_quic.Mqp.Flow.Binding.{FlowBinding}
use my_quic.Mqp.Flow.Registry.{Bindings, Sessions}

abbrev pub bit : Bool → ℕ
bit true = 1
bit false = 0

unfoldable pub count : ℕ → List ℕ → ℕ
count id [] = 0
count id (x ∷ xs) = bit (x == id) + count id xs

-- The ids that the index has for a session.
unfoldable pub ids_of : ℕ → Sessions → List ℕ
unfolding lookup
ids_of s m = elim (lookup s m) [ none ↦ [] | some ids ↦ ids ]

-- The entries of a session under an id.
unfoldable pub held : ℕ → ℕ → Bindings → ℕ
held s k [] = 0
held s k ((j, b) ∷ m) = bit (j == k && b.session == s) + held s k m

unfoldable pub owned : Bindings → ℕ
owned [] = 0
owned ((j, b) ∷ m) = bit (wire_id_server_owned b.wire_id) + owned m

unfoldable pub of_session : ℕ → Bindings → ℕ
of_session s [] = 0
of_session s ((j, b) ∷ m) = bit (b.session == s) + of_session s m

-- The map without the entries of a session, by a walk over all of it.
unfoldable pub others : ℕ → Bindings → Bindings
others s [] = []
others s ((j, b) ∷ m) = if b.session == s then others s m else (j, b) ∷ others s m

-- Whether an entry of the session has its atomics at a place.
unfoldable pub closes : ℕ → ℕ → Bindings → Bool
closes s p [] = false
closes s p ((j, b) ∷ m) = b.session == s && p == b.cell || closes s p m

abbrev pub Keyed : Bindings → Type 0
Keyed = All (λ e. e.1.wire_id ≡ e.0)

abbrev pub Unique {ℓ} : {V : Type ℓ} → List (ℕ × V) → Type 0
Unique m = (k : ℕ) → occurs k m ≤ 1

module _ {ℓ} {V : Type ℓ} where
  pub lookup-occurs : (k : ℕ) (m : List (ℕ × V)) → occurs k m ≡ 0 → lookup k m ≡ none
  unfolding lookup occurs
  lookup-occurs k [] e = refl
  lookup-occurs k ((i, w) ∷ m) e = ground (arith, lookup-occurs k m)

  pub occurs-lookup : (k : ℕ) (m : List (ℕ × V)) → lookup k m ≡ none → occurs k m ≡ 0
  unfolding lookup occurs
  occurs-lookup k [] e = refl
  occurs-lookup k ((i, w) ∷ m) e = ground (arith, occurs-lookup k m)

  pub erase-none : (k : ℕ) (m : List (ℕ × V)) → lookup k m ≡ none → erase k m ≡ m
  unfolding lookup erase
  erase-none k [] e = refl
  erase-none k ((i, w) ∷ m) e = ground (arith, erase-none k m)

  pub lookup-erase_other :
      (k j : ℕ) (m : List (ℕ × V)) → (j == k) ≡ false → lookup j (erase k m) ≡ lookup j m
  unfolding lookup erase
  lookup-erase_other k j [] e = refl
  lookup-erase_other k j ((i, w) ∷ m) e = ground (arith, lookup-erase_other k j m)

module _ {ℓ} {V : Type ℓ} {v : V} (k : ℕ) where
  pub occurs-erase :
      (j : ℕ) (m : List (ℕ × V))
      → lookup k m ≡ some v
      → occurs j (erase k m) + bit (j == k) ≡ occurs j m
  unfolding lookup erase occurs
  occurs-erase j [] e = cc
  occurs-erase j ((i, w) ∷ m) e = ground (arith, occurs-erase j m)

  pub erase-Unique : (m : List (ℕ × V)) → lookup k m ≡ some v → Unique m → Unique (erase k m)
  erase-Unique m e u j = omega (arith, occurs-erase j m e, u j)

module _ (k : ℕ) {b : FlowBinding} where
  pub held-erase :
      (s j : ℕ) (m : Bindings)
      → lookup k m ≡ some b
      → held s j (erase k m) + bit (k == j && b.session == s) ≡ held s j m
  unfolding lookup erase held
  held-erase s j [] e = cc
  held-erase s j ((i, c) ∷ m) e = ground (arith, held-erase s j m)

  pub owned-erase :
      (m : Bindings)
      → lookup k m ≡ some b
      → owned (erase k m) + bit (wire_id_server_owned b.wire_id) ≡ owned m
  unfolding lookup erase owned
  owned-erase [] e = cc
  owned-erase ((i, c) ∷ m) e = ground (arith, owned-erase m)

  pub of_session-erase :
      (s : ℕ) (m : Bindings)
      → lookup k m ≡ some b
      → of_session s (erase k m) + bit (b.session == s) ≡ of_session s m
  unfolding lookup erase of_session
  of_session-erase s [] e = cc
  of_session-erase s ((i, c) ∷ m) e = ground (arith, of_session-erase s m)

  pub length-erase : (m : Bindings) → lookup k m ≡ some b → suc (length (erase k m)) ≡ length m
  unfolding lookup erase
  length-erase [] e = cc
  length-erase ((i, c) ∷ m) e = ground (arith, length-erase m)

  pub others-erase :
      (s : ℕ) (m : Bindings)
      → lookup k m ≡ some b
      → (b.session == s) ≡ true
      → others s (erase k m) ≡ others s m
  unfolding lookup erase others
  others-erase s [] e h = cc
  others-erase s ((i, c) ∷ m) e h = ground (arith, others-erase s m)

  pub closes-erase :
      (s p : ℕ) (m : Bindings)
      → lookup k m ≡ some b
      → (closes s p (erase k m) || (b.session == s && p == b.cell)) ≡ closes s p m
  unfolding lookup erase closes
  closes-erase s p [] e = cc
  closes-erase s p ((i, c) ∷ m) e = ground (arith, closes-erase s p m)

  pub lookup-Keyed : (m : Bindings) → Keyed m → lookup k m ≡ some b → b.wire_id ≡ k
  unfolding lookup
  lookup-Keyed [] h e = cc
  lookup-Keyed ((i, c) ∷ m) h e = ground (arith, lookup-Keyed m h.1)

pub erase-Keyed : (k : ℕ) (m : Bindings) → Keyed m → Keyed (erase k m)
unfolding erase
erase-Keyed k [] h = tt
erase-Keyed k ((i, c) ∷ m) h = ground (arith, erase-Keyed k m)

pub owned-le-length : (m : Bindings) → owned m ≤ length m
unfolding owned
owned-le-length [] = omega arith
owned-le-length ((i, c) ∷ m) = ground (arith, owned-le-length m)

pub held-le-occurs : (s k : ℕ) (m : Bindings) → held s k m ≤ occurs k m
unfolding held occurs
held-le-occurs s k [] = omega arith
held-le-occurs s k ((i, c) ∷ m) = ground (arith, held-le-occurs s k m)

-- An id of the session is bound to a flow of that session.
pub held-lookup :
    (s k : ℕ) (m : Bindings)
    → occurs k m ≤ 1
    → 1 ≤ held s k m
    → (b : FlowBinding) × (lookup k m ≡ some b) × ((b.session == s) ≡ true)
unfolding held occurs lookup
held-lookup s k [] u h = absurd (omega arith)
held-lookup s k ((i, c) ∷ m) u h = elim (Bool-cases (i == k)) [
  | inl e ↦ elim (Bool-cases (c.session == s)) [
    | inl f ↦ (c, rw e refl, f)
    | inr f ↦ absurd (ground (arith, held-le-occurs s k m))
  ]
  | inr e ↦ let (b, f, g) = held-lookup s k m (ground arith) (ground arith) in (b, rw e f, g)
]

-- Where no id of the session is bound, nothing of the session is in the map.
pub held_none :
    (s : ℕ) (m : Bindings) → ((k : ℕ) → held s k m ≡ 0) → (others s m ≡ m) × (of_session s m ≡ 0)
unfolding held others of_session
held_none s [] h = (refl, refl)
held_none s ((i, c) ∷ m) h =
    let rest = held_none s m (λ k. ground (arith, h k)) in ground (arith, h i, rest)

pub closes_none : (s p : ℕ) (m : Bindings) → of_session s m ≡ 0 → closes s p m ≡ false
unfolding of_session closes
closes_none s p [] h = refl
closes_none s p ((i, c) ∷ m) h = ground (arith, closes_none s p m)

pub count_head : (k : ℕ) (ids : List ℕ) → 1 ≤ count k (k ∷ ids)
unfolding count
count_head k ids = ground arith

pub count_nil : (k : ℕ) → count k [] ≡ 0
unfolding count
count_nil k = refl
