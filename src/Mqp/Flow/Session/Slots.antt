-- ===== src/Mqp/Flow/Session/Slots.antt =====
-- src/mqp/r2_flow.rs: which bindings a session's table holds after `insert` and `remove`.
use my_quic.Common.{
  ℕ, ◌+◌, ◌≤◌, ◌≡◌, ◌≢◌, ◌⊎◌, refl, ap, ◌∙◌, true, false, Option, none, some, List, [], ◌∷◌, ◌==◌,
  if◌then◌else◌, arith, length, Bool-cases, Option-cases, inl, inr,
}
use my_quic.Mqp.Flow.Binding.{FlowBinding, Store}
use my_quic.Mqp.Flow.Session.{
  Slot, SessionFlows, find_binding, is_vacant, any_vacant, is_full, find_id, fill, insert, vacate,
  remove,
}

-- How many slots have the id.
unfoldable pub holds : ℕ → List Slot → ℕ
holds k [] = 0
holds k (none ∷ es) = holds k es
holds k (some b ∷ es) = (if b.wire_id == k then 1 else 0) + holds k es

abbrev pub at_id : ℕ → List Slot → Slot
at_id k es = find_binding (λ b. b.wire_id == k) es

some-ne-none : {A : Type 0} {o : Option A} {a : A} → o ≡ some a → o ≢ none
some-ne-none e f = cc

module _ (h : Store) (b : FlowBinding) where
  fill_live :
      (k : ℕ) (c : FlowBinding) (es : List Slot)
      → at_id b.wire_id es ≡ none
      → at_id k es ≡ some c
      → is_vacant h (some c) ≡ false
      → at_id k (fill h b es) ≡ some c
  unfolding fill find_binding
  fill_live k c [] e f g = cc
  fill_live k c (none ∷ es) e f g = elim (Bool-cases (b.wire_id == k)) [
    | inl same ↦
        let p : b.wire_id ≡ k = ground arith in
        let q : at_id b.wire_id es ≡ some c = ap (λ j. at_id j es) p ∙ f in
        absurd (some-ne-none q e)
    | inr other ↦ rw other f
  ]
  fill_live k c (some d ∷ es) e f g = ground (arith, fill_live k c es)

  fill_found :
      (es : List Slot)
      → at_id b.wire_id es ≡ none
      → any_vacant h es ≡ true
      → at_id b.wire_id (fill h b es) ≡ some b
  unfolding fill find_binding any_vacant
  fill_found [] e f = cc
  fill_found (none ∷ es) e f = ground arith
  fill_found (some d ∷ es) e f = ground (arith, fill_found es)

  fill-holds :
      (k : ℕ) (es : List Slot)
      → holds k (fill h b es) ≤ (if b.wire_id == k then 1 else 0) + holds k es
  unfolding fill holds
  fill-holds k [] = omega arith
  fill-holds k (none ∷ es) = ground arith
  fill-holds k (some d ∷ es) = ground (arith, fill-holds k es)

  fill-length : (es : List Slot) → length (fill h b es) ≡ length es
  unfolding fill
  fill-length [] = refl
  fill-length (e ∷ es) = ground (arith, fill-length es)

none_held : (k : ℕ) (es : List Slot) → at_id k es ≡ none → holds k es ≡ 0
unfolding find_binding holds
none_held k [] e = refl
none_held k (none ∷ es) e = none_held k es e
none_held k (some d ∷ es) e = ground (arith, none_held k es)

held_at : (k : ℕ) (es : List Slot) → holds k es ≡ 0 → at_id k es ≡ none
unfolding find_binding holds
held_at k [] e = refl
held_at k (none ∷ es) e = held_at k es e
held_at k (some d ∷ es) e = ground (arith, held_at k es)

-- What the table keeps to: its slots are as many as they were made, and no id has two of them.
pub record IsTable (n : ℕ) (t : SessionFlows) : Type 0 where
  pub slots : length t.entries ≡ n
  pub unique : (k : ℕ) → holds k t.entries ≤ 1

pub insert-IsTable :
    (h : Store) (b : FlowBinding) {n : ℕ} (t : SessionFlows)
    → IsTable n t
    → IsTable n (insert h b t).1
unfolding insert find_id
insert-IsTable h b t ok = elim (Option-cases (at_id b.wire_id t.entries)) [
  | inr (old, e) ↦ rw (e, insert, find_id) ok
  | inl e ↦ elim (Bool-cases (any_vacant h t.entries)) [
    | inr f ↦ rw (e, insert, find_id, f) ok
    | inl f ↦
        rw (e, insert, find_id, f)
          (record {
            slots = fill-length h b t.entries ∙ ok.slots;
            unique = λ k.
                ground
                  (arith, fill-holds h b k t.entries, ok.unique k, none_held b.wire_id t.entries);
          })
  ]
]

-- `insert` evicts no live binding: whatever it answers, a binding that is in the table and not closed
-- is found under its id as before.
pub insert-keeps_live :
    (h : Store) (b : FlowBinding) (t : SessionFlows) (k : ℕ) (c : FlowBinding)
    → find_id k t ≡ some c
    → is_vacant h (some c) ≡ false
    → find_id k (insert h b t).1 ≡ some c
unfolding insert find_id
insert-keeps_live h b t k c e live = elim (Option-cases (at_id b.wire_id t.entries)) [
  | inr (old, f) ↦ rw (f, insert, find_id) e
  | inl f ↦ elim (Bool-cases (any_vacant h t.entries)) [
    | inr g ↦ rw (f, insert, find_id, g) e
    | inl g ↦ rw (f, insert, find_id, g) (fill_live h b k c t.entries f e live)
  ]
]

-- What an insert that is not refused leaves under the id of `b`: `b` itself, or, where the table had
-- a binding under it, the table as it was.
abbrev pub Listed : FlowBinding → SessionFlows → Slot → SessionFlows → Type 0
Listed b t none t' = find_id b.wire_id t' ≡ some b
Listed b t (some old) t' = t' ≡ t

-- `insert` is refused exactly when the id is not in the table and every slot has a live binding; it
-- then leaves the table alone. Else the table has the binding under its id, or it already had one
-- under it and is left alone.
pub insert_outcome :
    (h : Store) (b : FlowBinding) (t : SessionFlows)
    → ((insert h b t ≡ (false, t)) × (is_full h t ≡ true) × (find_id b.wire_id t ≡ none))
      ⊎ (((insert h b t).0 ≡ true) × Listed b t (find_id b.wire_id t) (insert h b t).1)
unfolding insert find_id is_full
insert_outcome h b t = elim (Option-cases (at_id b.wire_id t.entries)) [
  | inr (old, f) ↦ inr (rw (f, insert, find_id) refl, rw (f, Listed, insert, find_id) refl)
  | inl f ↦ elim (Bool-cases (any_vacant h t.entries)) [
    | inr g ↦ inl (rw (f, insert, find_id, g) refl, rw (g, is_full) refl, f)
    | inl g ↦ inr (
      rw (f, insert, find_id, g) refl,
      rw (f, Listed, insert, find_id, g) (fill_found h b t.entries f g),
    )
  ]
]

vacate_found :
    (k j : ℕ) (es : List Slot)
    → holds k es ≤ 1
    → at_id j (vacate k es) ≡ (if j == k then none else at_id j es)
unfolding vacate find_binding holds
vacate_found k j [] u = ground arith
vacate_found k j (none ∷ es) u = vacate_found k j es u
vacate_found k j (some d ∷ es) u = ground (arith, vacate_found k j es, held_at j es)

-- `remove` on a table with no id twice returns the binding of the id, takes it out, and leaves what
-- is found under every other id.
pub remove-find_id :
    {n : ℕ} (t : SessionFlows) (k j : ℕ)
    → IsTable n t
    → find_id j (remove k t).1 ≡ (if j == k then none else find_id j t)
unfolding remove find_id
remove-find_id t k j ok = vacate_found k j t.entries (ok.unique k)
