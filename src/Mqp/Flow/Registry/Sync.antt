-- ===== src/Mqp/Flow/Registry/Sync.antt =====
-- src/mqp/r2_flow.rs: the session index after an id is entered and after one is taken out.
use my_quic.Common.{
  ℕ, zero, suc, ◌+◌, ◌≤◌, ◌≡◌, ◌≢◌, refl, ◌&&◌, none, some, List, [], ◌∷◌, ◌++◌, ◌==◌,
  if◌then◌else◌, arith, All, Bool-cases, inl, inr, Option-cases,
}
use my_quic.Common.Assoc.{lookup, occurs}
use my_quic.Mqp.Flow.Registry.{
  Sessions, push_id, position, unsnoc, swap_remove, without_id, put_back, drop_id,
}
use my_quic.Mqp.Flow.Registry.Tally.{bit, count, ids_of, lookup-occurs, count_nil}

-- No session is in the index with an empty list.
abbrev pub Filled : Sessions → Type 0
Filled = All (λ e. e.1 ≢ [])

count-append : (k id : ℕ) (ids : List ℕ) → count k (ids ++ id ∷ []) ≡ bit (id == k) + count k ids
unfolding count
count-append k id [] = refl
count-append k id (x ∷ ids) = omega (arith, count-append k id ids)

unsnoc-count :
    (k x : ℕ) (xs : List ℕ) → count k ((unsnoc x xs).0 ∷ (unsnoc x xs).1) ≡ count k (x ∷ xs)
unfolding unsnoc count
unsnoc-count k x [] = refl
unsnoc-count k x (y ∷ ys) = omega (arith, unsnoc-count k y ys)

position-some :
    (k id n : ℕ) (ids : List ℕ)
    → position id ids ≡ some n
    → count k (swap_remove n ids) + bit (id == k) ≡ count k ids
unfolding position swap_remove count
position-some k id n [] e = cc
position-some k id zero (x ∷ []) e = ground arith
position-some k id zero (x ∷ y ∷ ys) e = ground (arith, unsnoc-count k y ys)
position-some k id (suc n) (x ∷ xs) e = ground (arith, position-some k id n xs)

position-none : (id : ℕ) (ids : List ℕ) → position id ids ≡ none → count id ids ≡ 0
unfolding position count
position-none id [] e = refl
position-none id (x ∷ xs) e = ground (arith, position-none id xs)

without_id-count :
    (k id : ℕ) (ids : List ℕ)
    → 1 ≤ count id ids
    → count k (without_id id ids) + bit (id == k) ≡ count k ids
unfolding without_id
without_id-count k id ids h = elim (Option-cases (position id ids)) [
  | inl e ↦ absurd (omega (arith, position-none id ids e))
  | inr (n, e) ↦ rw (e, without_id) (position-some k id n ids e)
]

put_back-count :
    (v t k : ℕ) (ids : List ℕ) (m : Sessions)
    → occurs v m ≡ 0
    → count k (ids_of t (put_back v ids m)) ≡ (if v == t then count k ids else count k (ids_of t m))
unfolding ids_of lookup count
put_back-count v t k [] m h = ground (arith, lookup-occurs t m)
put_back-count v t k (x ∷ xs) m h = ground arith

put_back-occurs :
    (v t : ℕ) (ids : List ℕ) (m : Sessions)
    → occurs t (put_back v ids m) ≤ bit (v == t) + occurs t m
unfolding occurs
put_back-occurs v t [] m = omega arith
put_back-occurs v t (x ∷ xs) m = ground arith

put_back-Filled : (v : ℕ) (ids : List ℕ) (m : Sessions) → Filled m → Filled (put_back v ids m)
put_back-Filled v [] m h = h
put_back-Filled v (x ∷ xs) m h = ground arith

module _ (s id : ℕ) where
  pub push_id-count :
      (t k : ℕ) (m : Sessions)
      → count k (ids_of t (push_id s id m)) ≡ bit (id == k && s == t) + count k (ids_of t m)
  unfolding push_id ids_of lookup
  push_id-count t k [] = ground (arith, count-append k id [])
  push_id-count t k ((u, ids) ∷ m) = ground (arith, push_id-count t k m, count-append k id ids)

  pub push_id-occurs :
      (t : ℕ) (m : Sessions)
      → occurs t (push_id s id m) ≡ occurs t m + bit (s == t && occurs s m == 0)
  unfolding push_id occurs
  push_id-occurs t [] = ground arith
  push_id-occurs t ((u, ids) ∷ m) = ground (arith, push_id-occurs t m)

  pub push_id-Filled : (m : Sessions) → Filled m → Filled (push_id s id m)
  unfolding push_id
  push_id-Filled [] h = ground arith
  push_id-Filled ((u, []) ∷ m) h = ground (arith, push_id-Filled m h.1)
  push_id-Filled ((u, x ∷ ids) ∷ m) h = ground (arith, push_id-Filled m h.1)

  pub drop_id-occurs : (t : ℕ) (m : Sessions) → occurs t (drop_id s id m) ≤ occurs t m
  unfolding drop_id occurs
  drop_id-occurs t [] = omega arith
  drop_id-occurs t ((u, ids) ∷ m) =
      ground (arith, drop_id-occurs t m, put_back-occurs u t (without_id id ids) m)

  pub drop_id-Filled : (m : Sessions) → Filled m → Filled (drop_id s id m)
  unfolding drop_id
  drop_id-Filled [] h = tt
  drop_id-Filled ((u, ids) ∷ m) h =
      ground (arith, drop_id-Filled m h.1, put_back-Filled u (without_id id ids) m h.1)

  pub drop_id-count :
      (t k : ℕ) (m : Sessions)
      → occurs s m ≤ 1
      → 1 ≤ count id (ids_of s m)
      → count k (ids_of t (drop_id s id m)) + bit (id == k && s == t) ≡ count k (ids_of t m)
  unfolding drop_id ids_of lookup occurs
  drop_id-count t k [] u h = absurd (omega (arith, count_nil id))
  drop_id-count t k ((v, ids) ∷ m) u h = elim (Bool-cases (v == s)) [
    | inl e ↦ ground (arith, put_back-count v t k (without_id id ids) m, without_id-count k id ids)
    | inr e ↦ ground (arith, drop_id-count t k m)
  ]
