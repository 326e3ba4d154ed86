-- ===== src/Mqp/Flow/Handshake.antt =====
-- src/mqp/r2_flow.rs, `CtlState`: what a connection knows of the peer's handshake, and its own rate
-- window for the control frames of revision 2; `Caps` stands in src/mqp/r2.rs.
pub mod Budget
use my_quic.Common.{ℕ, ◌+◌, ◌-◌, ◌%◌, Bool, true, false, Option, none, some, leb, if◌then◌else◌}

pub record Caps : Type 0 where
  pub wire_ver : ℕ
  pub flags : ℕ
  pub max_conn_flows : ℕ
  pub max_flows_sess : ℕ
  pub max_train_items : ℕ
  pub max_frame_bytes : ℕ
  pub max_reassembly : ℕ

pub record CtlRate : Type 0 where
  pub window_ms : ℕ
  pub count : ℕ

pub record CtlState : Type 0 where
  pub caps : Option Caps
  pub hello_seen : Bool
  pub ctl_rate : CtlRate

abbrev pub ctl_max_per_sec : ℕ
ctl_max_per_sec = 8192

unfoldable pub new : CtlState
new = record { caps = none; hello_seen = false; ctl_rate = record { window_ms = 0; count = 0 } }

unfoldable pub set_caps : Caps → CtlState → CtlState
set_caps c s = record s { caps = some c }

unfoldable pub mark_hello : CtlState → CtlState
mark_hello s = record s { hello_seen = true }

-- The window advances when a second has passed: `saturating_sub` is `-` on ℕ.
unfoldable advance : ℕ → CtlRate → CtlRate
advance now_ms r =
    if leb 1000 (now_ms - r.window_ms) then record { window_ms = now_ms; count = 0 } else r

unfoldable take_unit : CtlRate → Bool × CtlRate
take_unit r =
    if leb ctl_max_per_sec r.count
    then (false, r)
    else (true, record r { count = (r.count + 1) % 4294967296 })

unfoldable pub ctl_allowed : ℕ → CtlState → Bool × CtlState
unfolding advance take_unit
ctl_allowed now_ms s =
    let (ok, r) = take_unit (advance now_ms s.ctl_rate) in (ok, record s { ctl_rate = r })
