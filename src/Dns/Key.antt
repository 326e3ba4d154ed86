-- ===== src/Dns/Key.antt =====
-- src/dns/key.rs: the keys of the caches of resolved names. A name and a key are the bytes of their
-- text.
pub mod Inject
use my_quic.Common.{
  ℕ, zero, suc, ◌+◌, ◌-◌, ◌/◌, ◌%◌, Bool, true, false, ◌&&◌, Option, none, some, List, [], ◌∷◌,
  ◌++◌, map, leb, ltb, ◌==◌, if◌then◌else◌, length, take,
}
use my_quic.Common.Bytes.{Bytes}

abbrev pub dns_key_buf : ℕ
dns_key_buf = 261

abbrev pub dns_host_key_buf : ℕ
dns_host_key_buf = 255

-- `hb.last() == Some(&b'.')`.
abbrev pub ends_in_dot : Bytes → Bool
ends_in_dot [] = false
ends_in_dot (b ∷ []) = b == 46
ends_in_dot (b ∷ c ∷ bs) = ends_in_dot (c ∷ bs)

-- The loop that takes the trailing dots off; each round shortens the name, so its length is fuel
-- enough.
unfoldable pub trim_from : ℕ → Bytes → Bytes
trim_from zero hb = hb
trim_from (suc fuel) hb =
    let rest = trim_from fuel (take (length hb - 1) hb) in
    if ltb 1 (length hb) && ends_in_dot hb then rest else hb

unfoldable pub dns_name_bytes : Bytes → Bytes
unfolding trim_from
dns_name_bytes host = trim_from (length host) host

abbrev pub to_ascii_lowercase : ℕ → ℕ
to_ascii_lowercase b = if leb 65 b && leb b 90 then b + 32 else b

-- `to_string`, the decimal digits from the first on.
unfoldable pub to_string : ℕ → ℕ → Bytes
to_string zero n = []
to_string (suc fuel) n =
    let rest = to_string fuel (n / 10) in
    if ltb n 10 then (48 + n) ∷ [] else rest ++ (48 + n % 10) ∷ []

-- The loop that writes the digits before those that it has; a port has five at most.
unfoldable pub digits_from : ℕ → ℕ → Bytes → Bytes
digits_from zero p digits = digits
digits_from (suc fuel) p digits =
    let rest = digits_from fuel (p / 10) ((48 + p % 10) ∷ digits) in
    if p / 10 == 0 then (48 + p % 10) ∷ digits else rest

unfoldable pub dns_key_owned : Bytes → ℕ → Bytes
unfolding dns_name_bytes to_string
dns_key_owned host port = map to_ascii_lowercase (dns_name_bytes host) ++ 0 ∷ to_string 5 port

unfoldable pub dns_key : Bytes → ℕ → Option Bytes
unfolding dns_name_bytes digits_from
dns_key host port =
    let hb = dns_name_bytes host in
    if ltb dns_key_buf (length hb + 1 + 5)
    then none
    else some (map to_ascii_lowercase hb ++ 0 ∷ digits_from 5 port [])

unfoldable pub dns_host_key_owned : Bytes → Bytes
unfolding dns_name_bytes
dns_host_key_owned host = map to_ascii_lowercase (dns_name_bytes host)

unfoldable pub dns_host_key : Bytes → Option Bytes
unfolding dns_name_bytes
dns_host_key host =
    let hb = dns_name_bytes host in
    if ltb dns_host_key_buf (length hb) then none else some (map to_ascii_lowercase hb)
