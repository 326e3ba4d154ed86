-- ===== src/Mqp/Runs/Fid.antt =====
-- The flow-id allocator on concrete runs.
use my_quic.Common.{ℕ, ◌≡◌, some, get_elem?, arith}
use my_quic.Mqp.R3.Fid.{server, new, fid_owner}
use my_quic.Mqp.R3.Fid.Alloc.{alloc_times, alloc_times-get_elem?, returned_once}

alloc_times-get_elem?_example : get_elem? (alloc_times 3 (new server)).0 2 ≡ some (some 0x2002)
alloc_times-get_elem?_example = alloc_times-get_elem? server 3 2 (omega arith)

third : get_elem? (alloc_times 3 (new server)).0 2 ≡ some (some 0x2002)
third = alloc_times-get_elem? server 3 2 (omega arith)

returned_once_example : (server ≡ server) × (◌≡◌ {A = ℕ} 2 2) × (fid_owner 0x2002 ≡ some server)
returned_once_example = returned_once server server 3 3 2 2 0x2002 third third
