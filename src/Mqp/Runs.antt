-- ===== src/Mqp/Runs.antt =====
-- Tests of src/mqp on concrete frames, and the theorems at concrete inputs.
mod Addr
mod Fid
mod Data
mod Frag
mod Flow
mod Ctl
mod Train
