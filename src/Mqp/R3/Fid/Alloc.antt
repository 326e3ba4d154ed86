-- ===== src/Mqp/R3/Fid/Alloc.antt =====
-- src/mqp/r3.rs, `FlowIds`: what any number of allocations hands out.
use my_quic.Common.{
  ℕ, zero, suc, ◌+◌, ◌≤◌, ◌<◌, ◌≡◌, refl, ap, ◌∙◌, inl, inr, Option, none, some, arith, leb, ltb,
  if◌then◌else◌, List, [], ◌∷◌, length, get_elem?, Bool-cases,
}
use my_quic.Mqp.R3.Fid.{
  FidOwner, client, server, FlowIds, new, alloc, remaining, allocated, is_exhausted, fid_owner,
  fids_per_owner, server_fid_base,
}

-- The first id of an owner's half.
abbrev pub half_base : FidOwner → ℕ
half_base client = 0
half_base server = server_fid_base

-- `n` calls in a row: what each returned, and the allocator after them.
pub alloc_times : ℕ → FlowIds → List (Option ℕ) × FlowIds
alloc_times zero s = ([], s)
alloc_times (suc n) s =
    let (id, s') = alloc s in let (ids, s'') = alloc_times n s' in (id ∷ ids, s'')

pub record IsValid (s : FlowIds) : Type 0 where
  pub base_le : s.base ≤ s.next
  pub next_le : s.next ≤ s.end
  pub base_eq : s.base ≡ half_base s.owner
  pub end_eq : s.end ≡ half_base s.owner + fids_per_owner

pub new-IsValid : (o : FidOwner) → IsValid (new o)
unfolding new
new-IsValid client = omega arith
new-IsValid server = omega arith

pub alloc-IsValid : (s : FlowIds) → IsValid s → IsValid (alloc s).1
unfolding alloc
alloc-IsValid s v = ground arith

-- In a valid state of the allocator the ids handed out and those left make up the half, and a call
-- hands out one more unless the half is exhausted.
allocated-remaining :
    (s : FlowIds)
    → IsValid s
    → (allocated s + remaining s ≡ fids_per_owner)
      × (allocated (alloc s).1 ≡ allocated s + (if is_exhausted s then 0 else 1))
unfolding allocated remaining alloc is_exhausted
allocated-remaining s v = ground arith

abbrev nth_id : ℕ → ℕ → ℕ → Option ℕ
nth_id next end k = if ltb (next + k) end then some (next + k) else none

alloc_times_get :
    (n k : ℕ) (s : FlowIds)
    → s.end ≤ 65536
    → s.next ≤ s.end
    → k < n
    → get_elem? (alloc_times n s).0 k ≡ some (nth_id s.next s.end k)
unfolding alloc_times alloc
alloc_times_get zero k s he hn hk = absurd (omega arith)
alloc_times_get (suc n) zero s he hn hk = ground arith
alloc_times_get (suc n) (suc k) s he hn hk = elim (Bool-cases (leb s.end s.next)) [
  | inl e ↦ rw e (alloc_times_get n k s he hn (omega arith) ∙ ground arith)
  | inr e ↦ rw e (
      alloc_times_get n k (record s { next = s.next + 1 }) he (ground arith) (omega arith)
      ∙ ground arith)
]

-- The call number `k` on a fresh allocator returns the `k`-th id of the owner's half, and nothing
-- once the 8192 ids are spent.
pub alloc_times-get_elem? :
    (o : FidOwner) (n k : ℕ)
    → k < n
    → get_elem? (alloc_times n (new o)).0 k
      ≡ some (if ltb k fids_per_owner then some (half_base o + k) else none)
unfolding new
alloc_times-get_elem? client n k h =
    alloc_times_get n k (new client) (omega arith) (omega arith) h ∙ ground arith
alloc_times-get_elem? server n k h =
    alloc_times_get n k (new server) (omega arith) (omega arith) h ∙ ground arith

get_elem?-lt {ℓ} :
    {A : Type ℓ} (xs : List A) (k : ℕ) {x : A} → get_elem? xs k ≡ some x → k < length xs
get_elem?-lt [] k e = cc
get_elem?-lt (y ∷ xs) zero e = omega arith
get_elem?-lt (y ∷ xs) (suc k) e = omega (arith, get_elem?-lt xs k e)

length-alloc_times : (n : ℕ) (s : FlowIds) → length (alloc_times n s).0 ≡ n
unfolding alloc_times
length-alloc_times zero s = refl
length-alloc_times (suc n) s = ap suc (length-alloc_times n (alloc s).1)

-- An id that some call of a fresh allocator returned: where it lies, and at which call.
pub returned :
    (o : FidOwner) (n k id : ℕ)
    → get_elem? (alloc_times n (new o)).0 k ≡ some (some id)
    → (id ≡ half_base o + k) × (k < fids_per_owner)
returned o n k id e =
    let h : k < n = omega (arith, get_elem?-lt _ k e, length-alloc_times n (new o)) in
    ground (arith, alloc_times-get_elem? o n k h)

returned-fid_owner :
    (o : FidOwner) (k : ℕ) → k < fids_per_owner → fid_owner (half_base o + k) ≡ some o
unfolding fid_owner
returned-fid_owner client k h = ground arith
returned-fid_owner server k h = ground arith

-- No id is handed out twice on a connection, by one endpoint or by both: an id names its allocator
-- and the call that returned it.
pub returned_once :
    (o o' : FidOwner) (n n' k k' id : ℕ)
    → get_elem? (alloc_times n (new o)).0 k ≡ some (some id)
    → get_elem? (alloc_times n' (new o')).0 k' ≡ some (some id)
    → (o ≡ o') × (k ≡ k') × (fid_owner id ≡ some o)
returned_once o o' n n' k k' id e e' =
    let (p, hk) = returned o n k id e in
    let (p', hk') = returned o' n' k' id e' in
    let q : fid_owner id ≡ some o = rw p (returned-fid_owner o k hk) in
    let q' : fid_owner id ≡ some o' = rw p' (returned-fid_owner o' k' hk') in
    let same : o ≡ o' = cc in (same, omega (arith, ap half_base same), q)
