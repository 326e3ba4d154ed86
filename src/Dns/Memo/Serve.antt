-- ===== src/Dns/Memo/Serve.antt =====
-- src/dns/memo.rs: what a lookup finds after a store.
use my_quic.Common.{
  ℕ, ◌-◌, ◌%◌, ◌≤◌, ◌≡◌, ◌≢◌, ◌⊎◌, inl, inr, refl, sym, ◌∙◌, true, false, Option, none, some, ◌++◌,
  ◌==◌, length, take, take-append_left, replicate, Bool-cases, eq→==, ==→eq, arith,
}
use my_quic.Common.Bytes.{Bytes}
use my_quic.Mqp.Addr.{SocketAddr}
use my_quic.Mqp.Flow.Binding.{bytes_eq, bytes_eq→eq, bytes_eq_refl}
use my_quic.Dns.Memo.{
  DnsMemoSlot, memo_key_bytes, tag, new, matches, Ways, Memo, dns_memo_hash, dns_memo_set, as_hit,
  peek_ways, memo_peek_both, put_ways, with_set, memo_store,
}

-- The slot that `new` builds.
abbrev built : Bytes → ℕ → Option SocketAddr → ℕ → ℕ → DnsMemoSlot
built key hash addr expires_ms epoch = record {
  hash = hash;
  empty = false;
  addr = addr;
  len = length key % 65536;
  key = key ++ replicate (memo_key_bytes - length key) 0;
  expires_ms = expires_ms;
  neg_epoch = tag addr epoch;
}

-- A slot that answers a key holds it.
matches_key : (h : ℕ) (k : Bytes) (s : DnsMemoSlot) → matches h k s ≡ true → take s.len s.key ≡ k
unfolding matches
matches_key h k s e = ground (arith, e, bytes_eq→eq (take s.len s.key) k)

module _ (key : Bytes) (hash : ℕ) (addr : Option SocketAddr) (expires_ms epoch : ℕ)
    (fits : length key ≤ memo_key_bytes) where
  abbrev slot : DnsMemoSlot
  slot = built key hash addr expires_ms epoch

  built_when_fits : new key hash addr expires_ms epoch ≡ some slot
  unfolding new
  built_when_fits = ground arith

  stored_key : take slot.len slot.key ≡ key
  stored_key =
      take-append_left (length key % 65536) key (replicate (memo_key_bytes - length key) 0)
        (omega arith)

  -- The slot answers its own key, and no other one.
  matches_own : matches hash key slot ≡ true
  unfolding matches
  matches_own = rw stored_key (ground (arith, bytes_eq_refl key))

  matches_other : (h : ℕ) (k : Bytes) → key ≢ k → matches h k slot ≡ false
  unfolding matches
  matches_other h k ne = rw stored_key (elim (Bool-cases (bytes_eq key k)) [
    | inl e ↦ absurd (ne (bytes_eq→eq key k e))
    | inr e ↦ ground (arith, e)
  ])

  put_own :
      (w : Ways)
      → peek_ways hash key (put_ways hash key slot w) ≡ as_hit addr expires_ms (tag addr epoch)
  unfolding peek_ways put_ways
  put_own w = ground (arith, matches_own)

  put_other :
      (h : ℕ) (k : Bytes) (w : Ways)
      → key ≢ k
      → (peek_ways h k (put_ways hash key slot w) ≡ peek_ways h k w)
        ⊎ (peek_ways h k (put_ways hash key slot w) ≡ (none, none))
  unfolding peek_ways put_ways
  put_other h k w ne = elim (Bool-cases (matches hash key w.way0)) [
    | inl e ↦ elim (Bool-cases (matches h k w.way0)) [
      | inl e' ↦ absurd (ne (sym (matches_key hash key w.way0 e) ∙ matches_key h k w.way0 e'))
      | inr e' ↦ inl (ground (arith, e, e', matches_other h k ne))
    ]
    | inr e ↦ elim (Bool-cases (matches h k w.way0)) [
      | inl e' ↦ inl (ground (arith, e, e', matches_other h k ne))
      | inr e' ↦ inr (ground (arith, e, e', matches_other h k ne))
    ]
  ]

  abbrev after : Memo → Memo
  after m = with_set (dns_memo_set hash) (put_ways hash key slot (m (dns_memo_set hash))) m

  after_other :
      (k : Bytes) (m : Memo)
      → key ≢ k
      → (memo_peek_both k (after m) ≡ memo_peek_both k m)
        ⊎ (memo_peek_both k (after m) ≡ (none, none))
  unfolding memo_peek_both
  after_other k m ne =
      let set = dns_memo_set (dns_memo_hash k) in
      elim (Bool-cases (set == dns_memo_set hash)) [
        | inl e ↦ rw (==→eq set (dns_memo_set hash) e) (
            rw (eq→== (dns_memo_set hash) (dns_memo_set hash) refl)
              (put_other (dns_memo_hash k) k (m (dns_memo_set hash)) ne))
        | inr e ↦ inl (rw e refl)
      ]

module _ (key : Bytes) (addr : Option SocketAddr) (expires_ms epoch now_epoch : ℕ) (m : Memo)
    (fits : length key ≤ memo_key_bytes) where
  stored :
      memo_store key addr expires_ms epoch none now_epoch m
      ≡ (true, after key (dns_memo_hash key) addr expires_ms epoch fits m)
  unfolding memo_store
  stored = rw (built_when_fits key (dns_memo_hash key) addr expires_ms epoch fits, memo_store) refl

-- A store without a guard of a key that fits: it is reported as written, the key is then answered
-- with the stored address, deadline and, if the address is absent, epoch, and any other key is answered
-- as it was before or not at all.
pub memo_store-memo_peek_both :
    (key : Bytes) (addr : Option SocketAddr) (expires_ms epoch now_epoch : ℕ) (m : Memo)
    → length key ≤ memo_key_bytes
    → ((memo_store key addr expires_ms epoch none now_epoch m).0 ≡ true)
      × (memo_peek_both key (memo_store key addr expires_ms epoch none now_epoch m).1
          ≡ as_hit addr expires_ms (tag addr epoch))
      × ((k : Bytes)
          → key ≢ k
          → (memo_peek_both k (memo_store key addr expires_ms epoch none now_epoch m).1
              ≡ memo_peek_both k m)
            ⊎ (memo_peek_both k (memo_store key addr expires_ms epoch none now_epoch m).1
                ≡ (none, none)))
unfolding memo_peek_both
memo_store-memo_peek_both key addr expires_ms epoch now_epoch m fits =
    let hash = dns_memo_hash key in
    rw (stored key addr expires_ms epoch now_epoch m fits) (
      refl,
      rw (eq→== (dns_memo_set hash) (dns_memo_set hash) refl)
          (put_own key hash addr expires_ms epoch fits (m (dns_memo_set hash))),
      λ k ne. after_other key hash addr expires_ms epoch fits k m ne,
    )
