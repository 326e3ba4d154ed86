-- ===== src/Mqp/Addr.antt =====
-- src/mqp/addr.rs: the target address codec, `atyp u8 | addr | port u16 BE`.
pub mod Laws
pub mod Decode
pub mod Accept
pub mod Types
use my_quic.Common.{
  ℕ, zero, ◌+◌, ◌*◌, ◌≤◌, ◌<◌, ◌≡◌, List, [], ◌∷◌, ◌++◌, Bool, true, false, not, ◌&&◌, arith, ltb,
  leb, ◌==◌, ◌!=◌, if◌then◌else◌, length, take, drop, replicate, get_elem?, Option, none, some,
}
use my_quic.Common.Bytes.{Bytes, IsBytes, u16_be, index, u16_from_be}
use my_quic.Common.Utf8.{valid_utf8}
use my_quic.Mqp.Error.{
  MqpError, malformed, refused, bad_atyp, bad_domain_utf8, Result, ok, err, guard, ◌>>=◌, ◌>>◌,
}

-- `std::net::SocketAddr`: octets and port; for IPv6 also flow information and scope id.
pub data SocketAddr : Type 0 where
  v4 : Bytes → ℕ → SocketAddr
  v6 : Bytes → ℕ → ℕ → ℕ → SocketAddr

-- A domain is the bytes of its `str`.
pub data TargetAddrRef : Type 0 where
  ip : SocketAddr → TargetAddrRef
  domain : Bytes → ℕ → TargetAddrRef

pub record AddrHeader : Type 0 where
  pub addr : TargetAddrRef
  pub len : ℕ

-- `AddrHeader::MAX_LEN`
abbrev pub max_len : ℕ
max_len = 1 + 1 + 255 + 2

-- `is_unspecified` of an IP address.
unfoldable pub is_unspecified : Bytes → Bool
is_unspecified [] = true
is_unspecified (o ∷ os) = o == 0 && is_unspecified os

unfoldable pub encode : TargetAddrRef → Bytes → Result Bytes
encode (ip (v4 os port)) out = do
  guard (not (is_unspecified os)) (refused "refuse unspecified v4")
  ok (((out ++ 0x01 ∷ []) ++ os) ++ u16_be port)
encode (ip (v6 os port flow scope)) out = do
  guard (not (is_unspecified os)) (refused "refuse unspecified v6")
  guard (scope == 0) (refused "v6 scope_id dropped on wire, refuse scoped addr")
  ok (((out ++ 0x04 ∷ []) ++ os) ++ u16_be port)
encode (domain d port) out = do
  guard (length d != 0) (refused "empty domain")
  guard (leb (length d) 255) (refused "domain too long")
  ok ((((out ++ 0x03 ∷ []) ++ length d ∷ []) ++ d) ++ u16_be port)

unfoldable pub header : TargetAddrRef → Result AddrHeader
header (ip (v4 os port)) = do
  guard (not (is_unspecified os)) (refused "refuse unspecified v4")
  ok (record { addr = ip (v4 os port); len = 1 + 4 + 2 })
header (ip (v6 os port flow scope)) = do
  guard (not (is_unspecified os)) (refused "refuse unspecified v6")
  guard (scope == 0) (refused "v6 scope_id dropped on wire, refuse scoped addr")
  ok (record { addr = ip (v6 os port flow scope); len = 1 + 16 + 2 })
header (domain d port) = do
  guard (length d != 0) (refused "empty domain")
  guard (leb (length d) 255) (refused "domain too long")
  ok (record { addr = domain d port; len = 1 + 1 + length d + 2 })

-- The bytes that `encode_into` writes, and their number.
unfoldable pub written : TargetAddrRef → Bytes × ℕ
written (ip (v4 os port)) = (0x01 ∷ (os ++ u16_be port), 7)
written (ip (v6 os port flow scope)) = (0x04 ∷ (os ++ u16_be port), 19)
written (domain d port) = (0x03 ∷ length d ∷ (d ++ u16_be port), 4 + length d)

-- The slice after the writes (it is long enough wherever the code calls this), and the count.
unfoldable pub encode_into : AddrHeader → Bytes → Bytes × ℕ
unfolding written
encode_into h out = let (bytes, n) = written h.addr in (bytes ++ drop n out, n)

decode_v4 : Bytes → Result (TargetAddrRef × ℕ)
decode_v4 b = do
  guard (leb 7 (length b)) (malformed "short v4")
  let os = take 4 (drop 1 b)
  guard (not (is_unspecified os)) (refused "refuse unspecified v4 target")
  ok (ip (v4 os (u16_from_be (index b 5) (index b 6))), 7)

decode_v6 : Bytes → Result (TargetAddrRef × ℕ)
decode_v6 b = do
  guard (leb 19 (length b)) (malformed "short v6")
  let os = take 16 (drop 1 b)
  guard (not (is_unspecified os)) (refused "refuse unspecified v6 target")
  ok (ip (v6 os (u16_from_be (index b 17) (index b 18)) 0 0), 19)

decode_domain : Bytes → Result (TargetAddrRef × ℕ)
decode_domain b = do
  guard (leb 2 (length b)) (malformed "short domain")
  let n = index b 1
  guard (n != 0) (malformed "bad domain len")
  guard (leb (2 + n + 2) (length b)) (malformed "short domain body")
  let d = take n (drop 2 b)
  guard (valid_utf8 d) bad_domain_utf8
  ok (domain d (u16_from_be (index b (2 + n)) (index b (3 + n))), 4 + n)

unfoldable pub decode : Bytes → Result (TargetAddrRef × ℕ)
unfolding decode_v4 decode_v6 decode_domain
decode [] = err (malformed "empty addr")
decode (atyp ∷ rest) =
    if atyp == 0x01
    then decode_v4 (atyp ∷ rest)
    else if atyp == 0x04
    then decode_v6 (atyp ∷ rest)
    else if atyp == 0x03
    then decode_domain (atyp ∷ rest)
    else err (bad_atyp atyp)

-- What the Rust types guarantee of an address: octet counts, byte and port ranges, UTF-8.
abbrev pub IsAddr : TargetAddrRef → Type 0
IsAddr (ip (v4 os port)) = (length os ≡ 4) × IsBytes os × (port < 65536)
IsAddr (ip (v6 os port flow scope)) = (length os ≡ 16) × IsBytes os × (port < 65536)
IsAddr (domain d port) = IsBytes d × (valid_utf8 d ≡ true) × (port < 65536)

-- The wire has no place for IPv6 flow information: what arrives has it cleared.
abbrev pub on_wire : TargetAddrRef → TargetAddrRef
on_wire (ip (v4 os port)) = ip (v4 os port)
on_wire (ip (v6 os port flow scope)) = ip (v6 os port 0 scope)
on_wire (domain d port) = domain d port
