-- ===== src/Dns/Key/Inject.antt =====
-- src/dns/key.rs: which names and ports share a key.
use my_quic.Common.{
  ℕ, zero, suc, ◌+◌, ◌-◌, ◌*◌, ◌/◌, ◌%◌, ◌^◌, ◌≤◌, ◌<◌, ◌≡◌, refl, ap, ◌∙◌, sym, Bool, true, false,
  ◌||◌, ◌&&◌, some, [], ◌∷◌, ◌++◌, append_assoc, append-nil, map, arith, ltb, ◌==◌, length, take,
  Bool-cases, inl, inr, length-append, take-append_left,
}
use native.Mathlib.Nat.{pow-succ'}
use my_quic.Common.Bytes.{Bytes}
use my_quic.Dns.Key.{
  trim_from, dns_name_bytes, to_ascii_lowercase, ends_in_dot, to_string, digits_from, dns_key,
  dns_key_owned, dns_host_key, dns_host_key_owned,
}

-- The loop writes what `to_string` does.
digits_from_lem :
    (fuel p : ℕ) (digits : Bytes)
    → p < 10 ^ fuel
    → digits_from fuel p digits ≡ to_string fuel p ++ digits
unfolding digits_from to_string
digits_from_lem zero p digits h = refl
digits_from_lem (suc fuel) p digits h = elim (Bool-cases (ltb p 10)) [
  | inl e ↦
      let zero_left : (p / 10 == 0) ≡ true = ground (arith, e) in
      let same : p % 10 ≡ p = ground (arith, e) in
      rw (e, zero_left) (ap (λ n. (48 + n) ∷ digits) same)
  | inr e ↦
      let more : (p / 10 == 0) ≡ false = ground (arith, e) in
      rw (e, more)
        (digits_from_lem fuel (p / 10) ((48 + p % 10) ∷ digits) (omega (arith, pow-succ' 10 fuel))
          ∙ sym (append_assoc (to_string fuel (p / 10)) ((48 + p % 10) ∷ []) digits))
]

-- The number that digits write.
abbrev value : ℕ → Bytes → ℕ
value acc [] = acc
value acc (d ∷ ds) = value (acc * 10 + (d - 48)) ds

value-append :
    (acc : ℕ) (ds : Bytes) (d : ℕ) → value acc (ds ++ d ∷ []) ≡ value acc ds * 10 + (d - 48)
value-append acc [] d = refl
value-append acc (x ∷ ds) d = value-append (acc * 10 + (x - 48)) ds d

value-to_string : (fuel p : ℕ) → p < 10 ^ fuel → value 0 (to_string fuel p) ≡ p
unfolding to_string
value-to_string zero p h = omega arith
value-to_string (suc fuel) p h = elim (Bool-cases (ltb p 10)) [
  | inl e ↦ rw e (omega arith)
  | inr e ↦ rw e (
      value-append 0 (to_string fuel (p / 10)) (48 + p % 10)
      ∙ omega (arith, value-to_string fuel (p / 10) (omega (arith, pow-succ' 10 fuel))))
]

abbrev has_nul : Bytes → Bool
has_nul [] = false
has_nul (b ∷ bs) = b == 0 || has_nul bs

has_nul-append : (xs bs : Bytes) → has_nul (xs ++ bs) ≡ (has_nul xs || has_nul bs)
has_nul-append [] bs = refl
has_nul-append (a ∷ xs) bs = ground (arith, has_nul-append xs bs)

has_nul-to_string : (fuel p : ℕ) → has_nul (to_string fuel p) ≡ false
unfolding to_string
has_nul-to_string zero p = refl
has_nul-to_string (suc fuel) p = elim (Bool-cases (ltb p 10)) [
  | inl e ↦ rw e (ground arith)
  | inr e ↦ rw e (
      ground (
        arith,
        has_nul-append (to_string fuel (p / 10)) ((48 + p % 10) ∷ []),
        has_nul-to_string fuel (p / 10),
      ))
]

-- A key splits at its last NUL.
split_last :
    (xs bs ds es : Bytes)
    → has_nul ds ≡ false
    → has_nul es ≡ false
    → xs ++ 0 ∷ ds ≡ bs ++ 0 ∷ es
    → (xs ≡ bs) × (ds ≡ es)
split_last [] [] ds es hd he e = (refl, cc)
split_last [] (b ∷ bs) ds es hd he e =
    let tail : ds ≡ bs ++ 0 ∷ es = cc in
    absurd (ground (arith, hd, ap has_nul tail, has_nul-append bs (0 ∷ es)))
split_last (a ∷ xs) [] ds es hd he e =
    let tail : xs ++ 0 ∷ ds ≡ es = cc in
    absurd (ground (arith, he, ap has_nul tail, has_nul-append xs (0 ∷ ds)))
split_last (a ∷ xs) (b ∷ bs) ds es hd he e =
    let head : a ≡ b = cc in
    let tail : xs ++ 0 ∷ ds ≡ bs ++ 0 ∷ es = cc in
    let (front, back) = split_last xs bs ds es hd he tail in (cc, back)

ends_in_dot-append : (h : Bytes) → ends_in_dot (h ++ 46 ∷ []) ≡ true
ends_in_dot-append [] = refl
ends_in_dot-append (a ∷ []) = refl
ends_in_dot-append (a ∷ b ∷ h) = ends_in_dot-append (b ∷ h)

trim_step :
    (fuel : ℕ) (hb : Bytes)
    → (ltb 1 (length hb) && ends_in_dot hb) ≡ true
    → trim_from (suc fuel) hb ≡ trim_from fuel (take (length hb - 1) hb)
unfolding trim_from
trim_step fuel hb cut = rw cut refl

-- The dot of an absolute name goes.
dns_name_bytes_dot : (h : Bytes) → 0 < length h → dns_name_bytes (h ++ 46 ∷ []) ≡ dns_name_bytes h
unfolding dns_name_bytes
dns_name_bytes_dot h some_byte =
    let x = h ++ 46 ∷ [] in
    let longer : length x ≡ suc (length h) = length-append h (46 ∷ []) ∙ omega arith in
    let cut : (ltb 1 (length x) && ends_in_dot x) ≡ true =
      ground (arith, ends_in_dot-append h, some_byte, longer) in
    let back = take-append_left (length x - 1) h (46 ∷ []) (omega (arith, longer)) in
    ap (λ n. trim_from n x) longer ∙ trim_step (length h) x cut ∙ ap (trim_from (length h)) back

dns_key_owned_parts :
    (host host' : Bytes) (port port' : ℕ)
    → port < 2 ^ 16
    → port' < 2 ^ 16
    → dns_key_owned host port ≡ dns_key_owned host' port'
    → (dns_host_key_owned host ≡ dns_host_key_owned host') × (port ≡ port')
unfolding dns_key_owned dns_host_key_owned
dns_key_owned_parts host host' port port' small small' e =
    let (names, digits) =
      split_last (map to_ascii_lowercase (dns_name_bytes host))
        (map to_ascii_lowercase (dns_name_bytes host')) (to_string 5 port) (to_string 5 port')
        (has_nul-to_string 5 port) (has_nul-to_string 5 port') e in
    (
      names,
      sym (value-to_string 5 port (omega arith))
          ∙ ap (value 0) digits
          ∙ value-to_string 5 port' (omega arith),
    )

dns_key_inv :
    (host : Bytes) (port : ℕ) {k : Bytes}
    → port < 2 ^ 16
    → dns_key host port ≡ some k
    → (length (dns_name_bytes host) ≤ 255) × (k ≡ dns_key_owned host port)
unfolding dns_key dns_key_owned
dns_key_inv host port small e =
    let name = dns_name_bytes host in
    let written = digits_from_lem 5 port [] (omega arith) ∙ append-nil (to_string 5 port) in
    elim (Bool-cases (ltb 261 (length name + 1 + 5))) [
      | inl long ↦ absurd (cc (rw long at e))
      | inr fits ↦
          let there = rw fits at e in
          let same = ap (λ ds. map to_ascii_lowercase name ++ 0 ∷ ds) written in
          (ground (arith, fits), cc (there, same))
    ]

-- Where `dns_key` answers a key for a name that is not empty and a port, and `dns_key_owned` makes the
-- same key for a name and a port: the name fits its limit of 255 bytes, both forms of its key are the
-- same, and so are the ports and the keys of the host alone; a dot after the name changes no key.
pub dns_key-dns_key_owned :
    (host host' : Bytes) (port port' : ℕ) {k : Bytes}
    → 0 < length host
    → port < 2 ^ 16
    → port' < 2 ^ 16
    → dns_key host port ≡ some k
    → dns_key_owned host' port' ≡ k
    → (length (dns_name_bytes host) ≤ 255)
      × (dns_key_owned host port ≡ k)
      × (port ≡ port')
      × (dns_host_key host ≡ some (dns_host_key_owned host'))
      × (dns_key (host ++ 46 ∷ []) port ≡ some k)
unfolding dns_key dns_host_key dns_host_key_owned
dns_key-dns_key_owned host host' port port' some_byte small small' e e' =
    let (short, own) = dns_key_inv host port small e in
    let (names, ports) =
      dns_key_owned_parts host host' port port' small small' (sym own ∙ sym e') in
    let fits : ltb 255 (length (dns_name_bytes host)) ≡ false = ground (arith, short) in
    let host_key : dns_host_key host ≡ some (dns_host_key_owned host) = rw fits refl in
    let absolute = dns_name_bytes_dot host some_byte in
    (short, sym own, ports, host_key ∙ ap some names, rw absolute e)
