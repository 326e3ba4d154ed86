-- ===== src/Mqp/Addr/Accept.antt =====
-- src/mqp/addr.rs: the converse. Every buffer that the decoder accepts starts with the header of the
-- address that it returns.
use my_quic.Common.{
  ℕ, zero, suc, ◌+◌, ◌≤◌, ◌<◌, ◌≡◌, refl, ap, sym, [], ◌∷◌, ◌++◌, arith, length, take, true, false,
  Bool-cases, ◌==◌, ◌!=◌, inl, inr, ==→eq,
}
use my_quic.Common.Bytes.{Bytes, IsBytes, IsByte, u16_be, u16_from_be, index}
use my_quic.Common.Utf8.{valid_utf8}
use my_quic.Mqp.Error.{ok, err, malformed}
use my_quic.Mqp.Addr.{
  v4, v6, TargetAddrRef, ip, domain, AddrHeader, header, decode, IsAddr, on_wire, is_unspecified,
  decode_v4, decode_v6, decode_domain,
}
use my_quic.Mqp.Addr.Laws.{wire}

be_split :
    (x y : ℕ)
    → x < 256
    → y < 256
    → (u16_from_be x y < 65536) × (u16_be (u16_from_be x y) ≡ x ∷ y ∷ [])
be_split x y hx hy = (omega arith, ground arith)

-- A buffer of at least `k + 2` bytes: the first `k`, a big-endian number, and the rest.
pub record SplitAt (b : Bytes) (k j : ℕ) : Type 0 where
  rest : Bytes
  whole : b ≡ (take k b ++ u16_be (u16_from_be (index b k) (index b j))) ++ rest
  front_len : length (take k b) ≡ k
  front_IsBytes : IsBytes (take k b)
  port_lt : u16_from_be (index b k) (index b j) < 65536

abbrev Split : Bytes → ℕ → Type 0
Split b k = SplitAt b k (k + 1)

at_cons :
    (x : ℕ) (b : Bytes) (k j : ℕ)
    → j ≡ suc (k + 1)
    → IsByte x
    → Split b k
    → SplitAt (x ∷ b) (suc k) j
at_cons x b k j e hx s = rw e (record {
  rest = s.rest;
  whole = ap (◌∷◌ x) s.whole;
  front_len = ap suc s.front_len;
  front_IsBytes = (hx, s.front_IsBytes);
  port_lt = s.port_lt;
})

split : (b : Bytes) (k : ℕ) → k + 2 ≤ length b → IsBytes b → Split b k
split [] k h hb = absurd (omega arith)
split (x ∷ []) zero h hb = absurd (omega arith)
split (x ∷ y ∷ b) zero h hb = record {
  rest = b;
  whole = sym (ap (λ w. w ++ b) (be_split x y hb.0 hb.1.0).1);
  front_len = refl;
  front_IsBytes = tt;
  port_lt = (be_split x y hb.0 hb.1.0).0;
}
split (x ∷ b) (suc k) h hb =
    let e : suc k + 1 ≡ suc (k + 1) = omega arith in
    at_cons x b k (suc k + 1) e hb.0 (split b k (omega arith) hb.1)

-- What an accepted buffer is.
pub record Accepts (b : Bytes) (a : TargetAddrRef) (n : ℕ) : Type 0 where
  pub rest : Bytes
  pub whole : b ≡ wire a ++ rest
  pub is_addr : IsAddr a
  pub head : AddrHeader
  pub accepted : header a ≡ ok head
  pub len_eq : head.len ≡ n
  pub kept : on_wire a ≡ a

decode_v4_inv :
    (b : Bytes) (a : TargetAddrRef) (n : ℕ)
    → decode_v4 (0x01 ∷ b) ≡ ok (a, n)
    → (6 ≤ length b)
      × (is_unspecified (take 4 b) ≡ false)
      × (a ≡ ip (v4 (take 4 b) (u16_from_be (index b 4) (index b 5))))
      × (n ≡ 7)
unfolding decode_v4
decode_v4_inv b a n e = ground arith

v4-Accepts :
    (b os : Bytes) (p : ℕ) (s : Split b 4)
    → os ≡ take 4 b
    → p ≡ u16_from_be (index b 4) (index b 5)
    → is_unspecified os ≡ false
    → Accepts (0x01 ∷ b) (ip (v4 os p)) 7
unfolding header wire
v4-Accepts b os p s eo ep hu = record {
  rest = s.rest;
  whole = rw (eo, ep) (ap (◌∷◌ 1) s.whole);
  is_addr = rw (eo, ep) (s.front_len, s.front_IsBytes, s.port_lt);
  head = record { addr = ip (v4 os p); len = 7 };
  accepted = rw hu;
  len_eq = refl;
  kept = refl;
}

decode_v4-Accepts :
    (b : Bytes) (a : TargetAddrRef) (n : ℕ)
    → IsBytes b
    → decode_v4 (0x01 ∷ b) ≡ ok (a, n)
    → Accepts (0x01 ∷ b) a n
decode_v4-Accepts b a n hb e =
    let (hl, hu, ea, en) = decode_v4_inv b a n e in
    rw (ea, en) (v4-Accepts b _ _ (split b 4 (omega arith) hb) refl refl hu)

decode_v6_inv :
    (b : Bytes) (a : TargetAddrRef) (n : ℕ)
    → decode_v6 (0x04 ∷ b) ≡ ok (a, n)
    → (18 ≤ length b)
      × (is_unspecified (take 16 b) ≡ false)
      × (a ≡ ip (v6 (take 16 b) (u16_from_be (index b 16) (index b 17)) 0 0))
      × (n ≡ 19)
unfolding decode_v6
decode_v6_inv b a n e = ground arith

v6-Accepts :
    (b os : Bytes) (p : ℕ) (s : Split b 16)
    → os ≡ take 16 b
    → p ≡ u16_from_be (index b 16) (index b 17)
    → is_unspecified os ≡ false
    → Accepts (0x04 ∷ b) (ip (v6 os p 0 0)) 19
unfolding header wire
v6-Accepts b os p s eo ep hu = record {
  rest = s.rest;
  whole = rw (eo, ep) (ap (◌∷◌ 4) s.whole);
  is_addr = rw (eo, ep) (s.front_len, s.front_IsBytes, s.port_lt);
  head = record { addr = ip (v6 os p 0 0); len = 19 };
  accepted = rw hu;
  len_eq = refl;
  kept = refl;
}

decode_v6-Accepts :
    (b : Bytes) (a : TargetAddrRef) (n : ℕ)
    → IsBytes b
    → decode_v6 (0x04 ∷ b) ≡ ok (a, n)
    → Accepts (0x04 ∷ b) a n
decode_v6-Accepts b a n hb e =
    let (hl, hu, ea, en) = decode_v6_inv b a n e in
    rw (ea, en) (v6-Accepts b _ _ (split b 16 (omega arith) hb) refl refl hu)

decode_domain_inv :
    (n : ℕ) (b : Bytes) (a : TargetAddrRef) (k : ℕ)
    → decode_domain (0x03 ∷ n ∷ b) ≡ ok (a, k)
    → (n + 2 ≤ length b)
      × ((n != 0) ≡ true)
      × (valid_utf8 (take n b) ≡ true)
      × (a
          ≡ domain
              (take n b)
              (u16_from_be (index (0x03 ∷ n ∷ b) (2 + n)) (index (0x03 ∷ n ∷ b) (3 + n))))
      × (k ≡ 4 + n)
unfolding decode_domain
decode_domain_inv n b a k e = ground arith

domain-Accepts :
    (n : ℕ) (b d : Bytes) (p : ℕ) (s : Split b n)
    → d ≡ take n b
    → p ≡ u16_from_be (index b n) (index b (n + 1))
    → n < 256
    → (n != 0) ≡ true
    → valid_utf8 d ≡ true
    → Accepts (0x03 ∷ n ∷ b) (domain d p) (4 + n)
unfolding header wire
domain-Accepts n b d p s ed ep hn hz hu = record {
  rest = s.rest;
  whole = rw (ed, ep, s.front_len) (ap (λ r. 0x03 ∷ n ∷ r) s.whole);
  is_addr = (rw ed s.front_IsBytes, hu, rw ep s.port_lt);
  head = record { addr = domain d p; len = 1 + 1 + n + 2 };
  accepted = rw (ed, s.front_len, hz) (ground arith);
  len_eq = omega arith;
  kept = refl;
}

index_two : (x y : ℕ) (b : Bytes) (i j : ℕ) → i ≡ suc (suc j) → index (x ∷ y ∷ b) i ≡ index b j
index_two x y b i j e = rw e

decode_domain-Accepts :
    (n : ℕ) (b : Bytes) (a : TargetAddrRef) (k : ℕ)
    → n < 256
    → IsBytes b
    → decode_domain (0x03 ∷ n ∷ b) ≡ ok (a, k)
    → Accepts (0x03 ∷ n ∷ b) a k
decode_domain-Accepts n b a k hn hb e =
    let (hl, hz, hu, ea, ek) = decode_domain_inv n b a k e in
    rw (ea, ek)
      (domain-Accepts n b _ _ (split b n hl hb) refl
        (cc
          (index_two 3 n b (2 + n) n (omega arith), index_two 3 n b (3 + n) (n + 1) (omega arith)))
        hn hz hu)

-- The three address types, each with the test that selects it.
decode_v4_at :
    (t : ℕ) (b : Bytes) (a : TargetAddrRef) (n : ℕ)
    → t ≡ 0x01
    → IsBytes b
    → decode_v4 (t ∷ b) ≡ ok (a, n)
    → Accepts (t ∷ b) a n
decode_v4_at t b a n h hb e = rw h (decode_v4-Accepts b a n hb (rw h at e))

decode_v6_at :
    (t : ℕ) (b : Bytes) (a : TargetAddrRef) (n : ℕ)
    → t ≡ 0x04
    → IsBytes b
    → decode_v6 (t ∷ b) ≡ ok (a, n)
    → Accepts (t ∷ b) a n
decode_v6_at t b a n h hb e = rw h (decode_v6-Accepts b a n hb (rw h at e))

decode_domain_short : (t : ℕ) → decode_domain (t ∷ []) ≡ err (malformed "short domain")
unfolding decode_domain
decode_domain_short t = refl

decode_domain_at :
    (t : ℕ) (b : Bytes) (a : TargetAddrRef) (n : ℕ)
    → t ≡ 0x03
    → IsBytes b
    → decode_domain (t ∷ b) ≡ ok (a, n)
    → Accepts (t ∷ b) a n
decode_domain_at t [] a n h hb e = cc (decode_domain_short t, e)
decode_domain_at t (m ∷ b) a n h hb e = rw h (decode_domain-Accepts m b a n hb.0 hb.1 (rw h at e))

-- An accepted buffer of bytes starts with the header bytes of the address that was read, the count
-- consumed is the header length, and the address is one that `header` accepts and that the wire
-- keeps whole.
pub decode-Accepts :
    (b : Bytes) (a : TargetAddrRef) (n : ℕ) → IsBytes b → decode b ≡ ok (a, n) → Accepts b a n
unfolding decode
decode-Accepts [] a n hb e = cc
decode-Accepts (t ∷ b) a n hb e = elim (Bool-cases (t == 0x01)) [
  | inl p ↦ decode_v4_at t b a n (==→eq t 1 p) hb.1 (rw p at e)
  | inr p ↦ elim (Bool-cases (t == 0x04)) [
    | inl q ↦ decode_v6_at t b a n (==→eq t 4 q) hb.1 (rw (p, q) at e)
    | inr q ↦ elim (Bool-cases (t == 0x03)) [
      | inl r ↦ decode_domain_at t b a n (==→eq t 3 r) hb.1 (rw (p, q, r) at e)
      | inr r ↦ cc (rw (p, q, r) at e)
    ]
  ]
]
