-- ===== src/Mqp/R3/Field/Laws.antt =====
-- src/mqp/r3.rs, the fixed-width helpers on a buffer whose bytes at the offset are known.
use my_quic.Common.{
  ℕ, ◌+◌, ◌^◌, ◌<◌, ◌≡◌, refl, ap, sym, ◌∙◌, true, false, Bool-cases, inl, inr, some, [], ◌∷◌, ◌++◌,
  arith, length, drop, ltb,
}
use my_quic.Common.Bytes.{
  Bytes, u16_le, u32_le, get_range_two, get_range_four, u16_le_lem, u32_le_lem, checked_add_ok,
  get_elem?-drop, drop_step,
}
use my_quic.Mqp.Error.{ok}
use my_quic.Mqp.Addr.{TargetAddrRef, AddrHeader, IsAddr, header, on_wire, decode}
use my_quic.Mqp.Addr.Decode.{decode-wire}
use my_quic.Mqp.Addr.Laws.{wire, length-wire, header_ok, encode_into-wire}
use my_quic.Mqp.R3.Field.{
  get_u16, get_u32, put_addr, item_len_len, put_item_len, get_item_len, item_len_at,
}

pub get_u16_ok :
    (b : Bytes) (off n : ℕ) (rest : Bytes)
    → drop off b ≡ u16_le n ++ rest
    → n < 65536
    → off + 2 < 2 ^ 64
    → get_u16 b off ≡ ok (n, off + 2)
unfolding get_u16
get_u16_ok b off n rest e hn ho =
    rw (checked_add_ok off 2 ho, get_range_two b off _ _ rest e)
      (ap (λ v. ok (v, off + 2)) (u16_le_lem n hn))

pub get_u32_ok :
    (b : Bytes) (off n : ℕ) (rest : Bytes)
    → drop off b ≡ u32_le n ++ rest
    → n < 2 ^ 32
    → off + 4 < 2 ^ 64
    → get_u32 b off ≡ ok (n, off + 4)
unfolding get_u32
get_u32_ok b off n rest e hn ho =
    rw (checked_add_ok off 4 ho, get_range_four b off _ _ _ _ rest e)
      (ap (λ v. ok (v, off + 4)) (u32_le_lem n hn))

-- For a header that the address codec made, `put_addr` appends the address's bytes.
pub put_addr-wire :
    (a : TargetAddrRef) (h : AddrHeader)
    → IsAddr a
    → header a ≡ ok h
    → (put_addr h ≡ wire a) × (h.len ≡ length (wire a))
unfolding put_addr
put_addr-wire a h v e = rw (header_ok a h e) (encode_into-wire a v, sym (length-wire a v))

-- The two readers of a length field agree.
pub item_len_at-get_item_len :
    (b : Bytes) (off : ℕ) (r : ℕ × ℕ) → get_item_len b off ≡ ok r → item_len_at b off ≡ some r
unfolding get_item_len item_len_at get_u16
item_len_at-get_item_len b off r e = ground arith

put_item_len_short : (n : ℕ) → ltb n 255 ≡ true → (put_item_len n).0 ≡ n ∷ []
unfolding put_item_len
put_item_len_short n h = rw h

item_len_len_short : (n k : ℕ) → ltb n 255 ≡ true → item_len_len n ≡ some k → k ≡ 1
unfolding item_len_len
item_len_len_short n k h e = ground arith

-- The bytes of a length field are as many as counted.
pub length-put_item_len : (n k : ℕ) → item_len_len n ≡ some k → length (put_item_len n).0 ≡ k
unfolding item_len_len put_item_len
length-put_item_len n k e = ground arith

put_item_len_long :
    (n k : ℕ)
    → ltb n 255 ≡ false
    → item_len_len n ≡ some k
    → (n < 65536) × (k ≡ 3) × ((put_item_len n).0 ≡ 0xFF ∷ u16_le n)
unfolding put_item_len item_len_len
put_item_len_long n k h e = ground arith

-- The first byte of a length field decides how it is read.
get_item_len_short :
    (b : Bytes) (off n : ℕ) (rest : Bytes)
    → drop off b ≡ n ∷ rest
    → ltb n 255 ≡ true
    → get_item_len b off ≡ ok (n, off + 1)
unfolding get_item_len
get_item_len_short b off n rest e h = rw (get_elem?-drop b off n rest e) (ground arith)

get_item_len_long :
    (b : Bytes) (off n : ℕ) (rest : Bytes)
    → drop off b ≡ 0xFF ∷ (u16_le n ++ rest)
    → n < 65536
    → off + 3 < 2 ^ 64
    → get_item_len b off ≡ ok (n, off + 3)
unfolding get_item_len
get_item_len_long b off n rest e hn ho = rw (get_elem?-drop b off 0xFF (u16_le n ++ rest) e) (
    get_u16_ok b (off + 1) n rest (drop_step b off 1 (0xFF ∷ []) (u16_le n ++ rest) e refl) hn
      (omega arith)
    ∙ ap (λ i. ok (n, i)) (omega arith))

-- A length field that was written reads back, and takes the bytes that were counted for it.
pub get_item_len-put :
    (b : Bytes) (off n k : ℕ) (rest : Bytes)
    → item_len_len n ≡ some k
    → drop off b ≡ (put_item_len n).0 ++ rest
    → off + k < 2 ^ 64
    → get_item_len b off ≡ ok (n, off + k)
get_item_len-put b off n k rest ek e ho = elim (Bool-cases (ltb n 255)) [
  | inl s ↦
      let one : k ≡ 1 = item_len_len_short n k s ek in
      rw one (get_item_len_short b off n rest (rw (put_item_len_short n s) at e) s)
  | inr s ↦
      let (hn, hk, hp) = put_item_len_long n k s ek in
      rw hk (get_item_len_long b off n rest (rw hp at e) hn (omega arith))
]

-- What a successful header says of the address bytes that are written.
module _ (a : TargetAddrRef) (h : AddrHeader) (v : IsAddr a) (eh : header a ≡ ok h) where
  -- A decoder that stands before an address.
  pub addr_at :
      (b : Bytes) (off : ℕ) (payload : Bytes)
      → drop off b ≡ put_addr h ++ payload
      → (decode (drop off b) ≡ ok (on_wire a, h.len)) × (drop (off + h.len) b ≡ payload)
  addr_at b off payload e =
      let (pw, pl) = put_addr-wire a h v eh in
      let e' : drop off b ≡ wire a ++ payload = rw pw at e in
      (rw e' (decode-wire a h payload v eh), drop_step b off h.len (wire a) payload e' pl)

  pub length-put_addr : length (put_addr h) ≡ h.len
  length-put_addr = let (pw, pl) = put_addr-wire a h v eh in cc (ap length pw)
