-- ===== src/Mqp/R3/Fid.antt =====
-- src/mqp/r3.rs: the 14-bit flow ids, split by owner, and their allocator `FlowIds`.
pub mod Alloc
use my_quic.Common.{ℕ, ◌+◌, ◌-◌, ◌%◌, Bool, ◌&&◌, Option, none, some, leb, if◌then◌else◌, String}
use my_quic.Mqp.Error.{MqpError, malformed, Result, ok, err, guard}

abbrev pub fid_max : ℕ
fid_max = 0x3FFF

abbrev pub client_fid_max : ℕ
client_fid_max = 0x1FFF

abbrev pub server_fid_base : ℕ
server_fid_base = 0x2000

abbrev pub fids_per_owner : ℕ
fids_per_owner = 8192

pub data FidOwner : Type 0 where
  client server : FidOwner

abbrev pub is_client_fid : ℕ → Bool
is_client_fid fid = leb fid client_fid_max

abbrev pub is_server_fid : ℕ → Bool
is_server_fid fid = leb server_fid_base fid && leb fid fid_max

abbrev pub valid_fid : ℕ → Bool
valid_fid fid = leb fid fid_max

unfoldable pub fid_owner : ℕ → Option FidOwner
fid_owner fid =
    if is_client_fid fid then some client else if is_server_fid fid then some server else none

abbrev pub owns : FidOwner → ℕ → Bool
owns client fid = is_client_fid fid
owns server fid = is_server_fid fid

abbrev pub require_fid_owner : ℕ → FidOwner → String → Result (Unit {0})
require_fid_owner fid owner bad = if owns owner fid then ok tt else err (malformed bad)

pub record FlowIds : Type 0 where
  pub owner : FidOwner
  pub next : ℕ
  pub end : ℕ
  pub base : ℕ

unfoldable pub new : FidOwner → FlowIds
new client = record { owner = client; next = 0; end = fids_per_owner; base = 0 }
new server = record {
  owner = server;
  next = server_fid_base;
  end = server_fid_base + fids_per_owner;
  base = server_fid_base;
}

-- The id is `self.next as u16`; a `u32` counter below 2 ^ 32 - 1 does not wrap.
unfoldable pub alloc : FlowIds → Option ℕ × FlowIds
alloc s =
    if leb s.end s.next then (none, s) else (some (s.next % 65536), record s { next = s.next + 1 })

unfoldable pub remaining : FlowIds → ℕ
remaining s = s.end - s.next

unfoldable pub allocated : FlowIds → ℕ
allocated s = s.next - s.base

unfoldable pub is_exhausted : FlowIds → Bool
is_exhausted s = leb s.end s.next
