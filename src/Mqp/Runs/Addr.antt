-- ===== src/Mqp/Runs/Addr.antt =====
-- src/mqp/addr.rs on concrete addresses.
use my_quic.Common.{◌≡◌, refl, [], ◌∷◌, ◌++◌, arith}
use my_quic.Common.Utf8.{valid_utf8}
use my_quic.Mqp.Error.{ok}
use my_quic.Mqp.Addr.{TargetAddrRef, v4, ip, domain, AddrHeader, header, decode, is_unspecified}
use my_quic.Mqp.Addr.Laws.{Agree, wire, header-encode}
use my_quic.Mqp.Addr.Decode.{decode-wire}
use my_quic.Mqp.Addr.Accept.{Accepts, decode-Accepts}

abbrev local : TargetAddrRef
local = ip (v4 (10 ∷ 0 ∷ 0 ∷ 1 ∷ []) 53)

abbrev local_header : AddrHeader
local_header = record { addr = local; len = 7 }

-- "a.b"
abbrev host : TargetAddrRef
host = domain (97 ∷ 46 ∷ 98 ∷ []) 443

abbrev host_header : AddrHeader
host_header = record { addr = host; len = 7 }

host_accepted : header host ≡ ok host_header
unfolding header
host_accepted = refl

header-encode_example : Agree local (1 ∷ [])
header-encode_example = header-encode local (1 ∷ [])

decode-wire_example : decode (wire host ++ 9 ∷ []) ≡ ok (host, 7)
unfolding valid_utf8
decode-wire_example =
    decode-wire host host_header (9 ∷ []) (omega arith, refl, omega arith) host_accepted

local_decoded : decode (1 ∷ 10 ∷ 0 ∷ 0 ∷ 1 ∷ 0 ∷ 53 ∷ 7 ∷ []) ≡ ok (local, 7)
unfolding decode is_unspecified
local_decoded = refl

decode-Accepts_example : Accepts (1 ∷ 10 ∷ 0 ∷ 0 ∷ 1 ∷ 0 ∷ 53 ∷ 7 ∷ []) local 7
decode-Accepts_example = decode-Accepts _ local 7 (omega arith) local_decoded
