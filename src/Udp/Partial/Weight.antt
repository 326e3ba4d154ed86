-- ===== src/Udp/Partial/Weight.antt =====
-- src/udp/r2_reasm.rs: what the landed chunks of a mask weigh together.
use my_quic.Common.{
  ℕ, zero, suc, ◌+◌, ◌-◌, ◌≤◌, ◌<◌, ◌≡◌, refl, ap, Bool, false, List, [], ◌∷◌, ◌++◌, arith,
  if◌then◌else◌, length, replicate,
}
use my_quic.Common.Bytes.{Bytes}
use my_quic.Udp.Frag.{FragPlan}
use my_quic.Udp.Frag.Split.{start, next_start, Planned, piece, piece_width}
use my_quic.Udp.Partial.{PendingChunk, bit, set_bit, pending_cost, swap_remove, last_of, init_of}

-- The weights of the bits that are set, where the first bit has index `off`.
abbrev pub weight : (ℕ → ℕ) → ℕ → List Bool → ℕ
weight w off [] = 0
weight w off (b ∷ bs) = (if b then w off else 0) + weight w (suc off) bs

pub weight-set_bit :
    (w : ℕ → ℕ) (off : ℕ) (bs : List Bool) (i : ℕ)
    → i < length bs
    → bit bs i ≡ false
    → weight w off (set_bit bs i) ≡ weight w off bs + w (off + i)
weight-set_bit w off [] i h clear = absurd (omega arith)
weight-set_bit w off (b ∷ bs) zero h clear =
    let same : off + 0 ≡ off = omega arith in ground (arith, clear, ap w same)
weight-set_bit w off (b ∷ bs) (suc i) h clear =
    let same : suc off + i ≡ off + suc i = omega arith in
    omega (arith, weight-set_bit w (suc off) bs i (omega arith) clear, ap w same)

pub weight-replicate : (w : ℕ → ℕ) (off n : ℕ) → weight w off (replicate n false) ≡ 0
weight-replicate w off zero = refl
weight-replicate w off (suc n) = omega (arith, weight-replicate w (suc off) n)

abbrev pub one : ℕ → ℕ
one i = 1

-- How many chunks have landed.
abbrev pub count : List Bool → ℕ
count bs = weight one 0 bs

pub count_le : (off : ℕ) (bs : List Bool) → weight one off bs ≤ length bs
count_le off [] = omega arith
count_le off (b ∷ bs) = ground (arith, count_le (suc off) bs)

module _ (payload : Bytes) (p : FragPlan) (limit : ℕ) (v : Planned limit (length payload) p) where
  abbrev pub widths : ℕ → ℕ
  widths i = length (piece p payload i)

  -- The landed chunks are no longer than the payload from the first of them on.
  pub widths_le : (off : ℕ) (bs : List Bool) → weight widths off bs ≤ length payload - start p off
  widths_le off [] = omega arith
  widths_le off (b ∷ bs) =
      ground (arith, widths_le (suc off) bs, next_start p off, piece_width payload p v off)

pending_cost-last_of :
    (c : PendingChunk) (cs : List PendingChunk)
    → pending_cost (last_of c cs ∷ init_of c cs) ≡ pending_cost (c ∷ cs)
pending_cost-last_of c [] = refl
pending_cost-last_of c (d ∷ ds) = omega (arith, pending_cost-last_of d ds)

pub pending_cost-swap_remove :
    (k : ℕ) (cs : List PendingChunk) → pending_cost (swap_remove k cs) ≤ pending_cost cs
unfolding swap_remove
pending_cost-swap_remove k [] = omega arith
pending_cost-swap_remove zero (c ∷ []) = omega arith
pending_cost-swap_remove zero (c ∷ d ∷ ds) = omega (arith, pending_cost-last_of d ds)
pending_cost-swap_remove (suc k) (c ∷ cs) = omega (arith, pending_cost-swap_remove k cs)

pub pending_cost-append :
    (cs : List PendingChunk) (c : PendingChunk)
    → pending_cost (cs ++ c ∷ []) ≡ pending_cost cs + (length c.bytes + 48)
pending_cost-append [] c = omega arith
pending_cost-append (d ∷ ds) c = omega (arith, pending_cost-append ds c)
