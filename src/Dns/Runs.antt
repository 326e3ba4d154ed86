-- ===== src/Dns/Runs.antt =====
-- The memo and its keys on concrete names.
use my_quic.Common.{ℕ, ◌≡◌, ◌≢◌, ◌⊎◌, ◌≤◌, ◌++◌, length, refl, true, none, some, [], ◌∷◌, arith}
use my_quic.Common.Bytes.{Bytes}
use my_quic.Mqp.Addr.{SocketAddr, v4}
use my_quic.Dns.Memo.{Memo, empty_slot, as_hit, memo_store, memo_peek_both}
use my_quic.Dns.Key.{dns_name_bytes, dns_key, dns_key_owned, dns_host_key, dns_host_key_owned}
use my_quic.Dns.Key.Inject.{dns_key-dns_key_owned}
use my_quic.Dns.Memo.Serve.{memo_store-memo_peek_both}

-- `a.b`, the separator and port 53.
abbrev name : Bytes
name = 97 ∷ 46 ∷ 98 ∷ 0 ∷ 53 ∷ 51 ∷ []

abbrev answer : SocketAddr
answer = v4 (10 ∷ 0 ∷ 0 ∷ 1 ∷ []) 53

abbrev no_names : Memo
no_names set = record { way0 = empty_slot; way1 = empty_slot }

memo_store-memo_peek_both_example :
    ((memo_store name (some answer) 60000 0 none 7 no_names).0 ≡ true)
    × (memo_peek_both name (memo_store name (some answer) 60000 0 none 7 no_names).1
        ≡ (some (record { addr = some answer; expires_ms = 60000; neg_epoch = 0 }), none))
    × ((k : Bytes)
        → name ≢ k
        → (memo_peek_both k (memo_store name (some answer) 60000 0 none 7 no_names).1
            ≡ memo_peek_both k no_names)
          ⊎ (memo_peek_both k (memo_store name (some answer) 60000 0 none 7 no_names).1
              ≡ (none, none)))
unfolding as_hit
memo_store-memo_peek_both_example =
    memo_store-memo_peek_both name (some answer) 60000 0 7 no_names (omega arith)

-- `A.b` and `a.B.` share a key.
abbrev upper : Bytes
upper = 65 ∷ 46 ∷ 98 ∷ []

abbrev absolute : Bytes
absolute = 97 ∷ 46 ∷ 66 ∷ 46 ∷ []

dns_key-dns_key_owned_example :
    (length (dns_name_bytes upper) ≤ 255)
    × (dns_key_owned upper 53 ≡ name)
    × ◌≡◌ {A = ℕ} 53 53
    × (dns_host_key upper ≡ some (dns_host_key_owned absolute))
    × (dns_key (upper ++ 46 ∷ []) 53 ≡ some name)
unfolding dns_key dns_key_owned
dns_key-dns_key_owned_example =
    dns_key-dns_key_owned upper absolute 53 53 (omega arith) (omega arith) (omega arith) refl refl
