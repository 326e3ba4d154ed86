-- ===== src/Udp/Partial/Lists.antt =====
-- src/udp/r2_reasm.rs: what a write, a `swap_remove` and the mask's bits leave at each place.
use my_quic.Common.{
  ℕ, zero, suc, ◌+◌, ◌-◌, ◌≤◌, ◌<◌, ◌≡◌, ◌⊎◌, refl, ap, subst, ◌∙◌, Bool, true, false, ◌||◌, some,
  List, [], ◌∷◌, ◌++◌, arith, ltb, ◌==◌, length, get_elem?, take, drop, replicate, length-append,
  length-replicate, length-take, length-drop, All, Bool-cases, inl, inr, ==→eq,
}
use Prim.Native.Nat.{max}
use my_quic.Common.Bytes.{Bytes}
use my_quic.Common.Index.{
  get_elem?-append_left, get_elem?-append_right, get_elem?-take, get_elem?-drop_at,
}
use my_quic.Udp.Partial.{
  PendingChunk, last_of, init_of, swap_remove, resized, written, bit, set_bit, ones, bits_eq,
}

module _ {ℓ} {A : Type ℓ} where
  -- Removal at an index keeps what stands before it.
  pub take-swap_remove : (k : ℕ) (xs : List A) → take k (swap_remove k xs) ≡ take k xs
  unfolding swap_remove
  take-swap_remove zero xs = refl
  take-swap_remove (suc k) [] = refl
  take-swap_remove (suc k) (x ∷ xs) = ap (◌∷◌ x) (take-swap_remove k xs)

  length-init_of : (x : A) (xs : List A) → length (init_of x xs) ≡ length xs
  length-init_of x [] = refl
  length-init_of x (y ∷ ys) = ap suc (length-init_of y ys)

  pub length-swap_remove :
      (k : ℕ) (xs : List A) → k < length xs → suc (length (swap_remove k xs)) ≡ length xs
  unfolding swap_remove
  length-swap_remove k [] h = absurd (omega arith)
  length-swap_remove zero (x ∷ []) h = refl
  length-swap_remove zero (x ∷ y ∷ ys) h = ap (λ n. suc (suc n)) (length-init_of y ys)
  length-swap_remove (suc k) (x ∷ xs) h = ap suc (length-swap_remove k xs (omega arith))

  All-last_of {κ} : (P : A → Type κ) (x : A) (xs : List A) → P x → All P xs → P (last_of x xs)
  All-last_of P x [] h hs = h
  All-last_of P x (y ∷ ys) h hs = All-last_of P y ys hs.0 hs.1

  All-init_of {κ} : (P : A → Type κ) (x : A) (xs : List A) → P x → All P xs → All P (init_of x xs)
  All-init_of P x [] h hs = tt
  All-init_of P x (y ∷ ys) h hs = (h, All-init_of P y ys hs.0 hs.1)

  pub All-swap_remove {κ} :
      (P : A → Type κ) (k : ℕ) (xs : List A) → All P xs → All P (swap_remove k xs)
  unfolding swap_remove
  All-swap_remove P k [] h = tt
  All-swap_remove P zero (x ∷ []) h = tt
  All-swap_remove P zero (x ∷ y ∷ ys) h =
      (All-last_of P y ys h.1.0 h.1.1, All-init_of P y ys h.1.0 h.1.1)
  All-swap_remove P (suc k) (x ∷ xs) h = (h.0, All-swap_remove P k xs h.1)

  pub All-get_elem? {κ} :
      (P : A → Type κ) (k : ℕ) (xs : List A) {x : A} → All P xs → get_elem? xs k ≡ some x → P x
  All-get_elem? P k [] h e = absurd (cc)
  All-get_elem? P zero (x ∷ xs) h e = let same : x ≡ _ = cc in subst P same h.0
  All-get_elem? P (suc k) (x ∷ xs) h e = All-get_elem? P k xs h.1 e

-- Whether a chunk of the index is queued.
abbrev pub waits : ℕ → List PendingChunk → Bool
waits i [] = false
waits i (c ∷ cs) = c.idx == i || waits i cs

waits-last_of :
    (i : ℕ) (c : PendingChunk) (cs : List PendingChunk)
    → waits i (c ∷ cs) ≡ ((last_of c cs).idx == i || waits i (init_of c cs))
waits-last_of i c [] = refl
waits-last_of i c (d ∷ ds) = ground (arith, waits-last_of i d ds)

pub waits-swap_remove :
    (i k : ℕ) (cs : List PendingChunk) {c : PendingChunk}
    → get_elem? cs k ≡ some c
    → waits i cs ≡ (c.idx == i || waits i (swap_remove k cs))
unfolding swap_remove
waits-swap_remove i k [] e = absurd (cc)
waits-swap_remove i zero (c ∷ []) e = ground arith
waits-swap_remove i zero (c ∷ d ∷ ds) e = ground (arith, waits-last_of i d ds)
waits-swap_remove i (suc k) (c ∷ cs) e = ground (arith, waits-swap_remove i k cs e)

pub waits-append :
    (i : ℕ) (cs : List PendingChunk) (c : PendingChunk)
    → waits i (cs ++ c ∷ []) ≡ (c.idx == i || waits i cs)
waits-append i [] c = refl
waits-append i (d ∷ ds) c = ground (arith, waits-append i ds c)

length-resized : (buf : Bytes) (end : ℕ) → length (resized buf end) ≡ max (length buf) end
unfolding resized
length-resized buf end = omega (
  arith,
  length-append buf (replicate (end - length buf) 0),
  length-replicate {A = ℕ} (end - length buf) 0,
)

module _ (buf : Bytes) (pos : ℕ) (chunk : Bytes) where
  abbrev end : ℕ
  end = pos + length chunk

  length-front : length (take pos (resized buf end)) ≡ pos
  length-front = omega (arith, length-take pos (resized buf end), length-resized buf end)

  -- A write puts the chunk at its place,
  pub get_elem?-written :
      (k : ℕ) → k < length chunk → get_elem? (written buf pos chunk) (pos + k) ≡ get_elem? chunk k
  unfolding written
  get_elem?-written k h = elim (Bool-cases (pos == length buf)) [
    | inl e ↦ rw e (get_elem?-append_right buf chunk (pos + k) k (ground arith))
    | inr e ↦
        let front = take pos (resized buf end) in
        let back = drop end (resized buf end) in
        rw e (
          get_elem?-append_right front (chunk ++ back) (pos + k) k (omega (arith, length-front))
          ∙ get_elem?-append_left chunk back k h)
  ]

  -- and keeps the bytes before and after it.
  pub get_elem?-written_other :
      (j : ℕ)
      → j < length buf
      → (j < pos) ⊎ (end ≤ j)
      → get_elem? (written buf pos chunk) j ≡ get_elem? buf j
  unfolding written resized
  get_elem?-written_other j h side = elim (Bool-cases (pos == length buf)) [
    | inl e ↦ rw e (get_elem?-append_left buf chunk j h)
    | inr e ↦
        let wide = resized buf end in
        let front = take pos wide in
        let rest = chunk ++ drop end wide in
        let old = get_elem?-append_left buf (replicate (end - length buf) 0) j h in
        rw e (elim side [
          | inl before ↦
              get_elem?-append_left front rest j (omega (arith, length-front))
              ∙ get_elem?-take pos wide j before
              ∙ old
          | inr after ↦
              get_elem?-append_right front rest j (j - pos) (omega (arith, length-front))
              ∙ get_elem?-append_right chunk (drop end wide) (j - pos) (j - end) (omega arith)
              ∙ get_elem?-drop_at end wide j (j - end) (omega arith)
              ∙ old
        ])
  ]

  pub length-written : length (written buf pos chunk) ≡ max (length buf) end
  unfolding written
  length-written = elim (Bool-cases (pos == length buf)) [
    | inl e ↦ rw e (omega (arith, length-append buf chunk, ==→eq pos (length buf) e))
    | inr e ↦
        let front = take pos (resized buf end) in
        let back = drop end (resized buf end) in
        rw e (
          omega (
            arith,
            length-append front (chunk ++ back),
            length-append chunk back,
            length-front,
            length-drop end (resized buf end),
            length-resized buf end,
          ))
  ]

pub length-set_bit : (bs : List Bool) (i : ℕ) → length (set_bit bs i) ≡ length bs
length-set_bit [] i = refl
length-set_bit (b ∷ bs) zero = refl
length-set_bit (b ∷ bs) (suc i) = ap suc (length-set_bit bs i)

pub bit-set_bit :
    (bs : List Bool) (i j : ℕ) → i < length bs → bit (set_bit bs i) j ≡ (i == j || bit bs j)
bit-set_bit [] i j h = absurd (omega arith)
bit-set_bit (b ∷ bs) zero zero h = refl
bit-set_bit (b ∷ bs) zero (suc j) h = ground arith
bit-set_bit (b ∷ bs) (suc i) zero h = ground arith
bit-set_bit (b ∷ bs) (suc i) (suc j) h = ground (arith, bit-set_bit bs i j)

-- A mask that equals the first bits has all of them,
pub ones-bit :
    (width n : ℕ) (bs : List Bool)
    → bits_eq bs (ones width n) ≡ true
    → (i : ℕ) → i < n
    → i < width
    → bit bs i ≡ true
unfolding ones
ones-bit zero n bs e i h w = absurd (omega arith)
ones-bit (suc width) zero bs e i h w = absurd (omega arith)
ones-bit (suc width) (suc n) [] e i h w = absurd (cc)
ones-bit (suc width) (suc n) (true ∷ bs) e zero h w = refl
ones-bit (suc width) (suc n) (true ∷ bs) e (suc i) h w =
    ones-bit width n bs e i (omega arith) (omega arith)
ones-bit (suc width) (suc n) (false ∷ bs) e i h w = absurd (cc)

-- and a mask of those bits and no others equals them.
pub bits_eq-ones :
    (width n : ℕ) (bs : List Bool)
    → length bs ≡ width
    → ((i : ℕ) → bit bs i ≡ ltb i n)
    → n ≤ width
    → bits_eq bs (ones width n) ≡ true
unfolding ones
bits_eq-ones zero n [] len same w = refl
bits_eq-ones zero n (b ∷ bs) len same w = absurd (omega arith)
bits_eq-ones (suc width) n [] len same w = absurd (omega arith)
bits_eq-ones (suc width) zero (b ∷ bs) len same w =
    let tail =
      bits_eq-ones width zero bs (omega arith) (λ i. ground (arith, same (suc i))) (omega arith) in
    ground (arith, same 0, tail)
bits_eq-ones (suc width) (suc n) (b ∷ bs) len same w =
    let tail =
      bits_eq-ones width n bs (omega arith) (λ i. ground (arith, same (suc i))) (omega arith) in
    ground (arith, same 0, tail)

pub bit-replicate : (n i : ℕ) → bit (replicate n false) i ≡ false
bit-replicate zero i = refl
bit-replicate (suc n) zero = refl
bit-replicate (suc n) (suc i) = bit-replicate n i
