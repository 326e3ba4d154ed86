-- ===== src/Udp/Reasm/Deliver.antt =====
-- src/udp/r2_reasm.rs: what a connection's reassembler delivers over its life, whatever arrives when.
use my_quic.Common.{ℕ, ◌≡◌, refl, Option, none, some, List, [], ◌∷◌, All}
use my_quic.Common.Bytes.{Bytes}
use my_quic.Udp.Partial.{Layout}
use my_quic.Udp.Partial.Sent.{Sent}
use my_quic.Udp.Reasm.{
  FragKey, FragIn, R2Assembled, R2Reassembler, new, push_frame, expire, drop_session, drop_flow,
}
use my_quic.Udp.Reasm.Table.{expire-Every, drop_session-Every, drop_flow-Every}
use my_quic.Udp.Reasm.Taken.{IsSent, IsFrameOf, IsWhole}
use my_quic.Udp.Reasm.Intact.{IsKnown, Intact, push_frame-Good}

-- A frame at a time, the sweep at a time, and the close of a session or a flow.
pub data Event : Type 0 where
  arrives : Bytes → FragIn → ℕ → Event
  sweeps : ℕ → Event
  closes_session : ℕ → Event
  closes_flow : ℕ → Event

unfoldable pub step : Layout → Event → R2Reassembler → Option R2Assembled × R2Reassembler
step l (arrives d f now_ms) r = push_frame l d f now_ms r
step l (sweeps now_ms) r = (none, expire l now_ms r)
step l (closes_session session) r = (none, (drop_session session r).1)
step l (closes_flow wire_id) r = (none, (drop_flow wire_id r).1)

-- The payloads that are delivered, in their order.
abbrev pub keep : Option R2Assembled → List R2Assembled → List R2Assembled
keep none as_yet = as_yet
keep (some a) as_yet = a ∷ as_yet

unfoldable pub delivered : Layout → List Event → R2Reassembler → List R2Assembled
unfolding step
delivered l [] r = []
delivered l (e ∷ es) r = let (o, r') = step l e r in keep o (delivered l es r')

-- A frame is one of a sent payload's.
abbrev pub IsSentBy : (FragKey → Option Sent) → Event → Type 0
IsSentBy sent (arrives d f now_ms) =
    (k : FragKey) × (s : Sent) × (sent k ≡ some s) × IsSent s × IsFrameOf k s d f
IsSentBy sent (sweeps now_ms) = Unit
IsSentBy sent (closes_session session) = Unit
IsSentBy sent (closes_flow wire_id) = Unit

abbrev pub IsWholeBy : (FragKey → Option Sent) → R2Assembled → Type 0
IsWholeBy sent a = (k : FragKey) × (s : Sent) × (sent k ≡ some s) × IsWhole k s a

module _ (sent : FragKey → Option Sent) (l : Layout) where
  step_keeps :
      (e : Event) (r : R2Reassembler)
      → IsSentBy sent e
      → Intact sent r
      → Intact sent (step l e r).1
        × ((a : R2Assembled) → (step l e r).0 ≡ some a → IsWholeBy sent a)
  unfolding step
  step_keeps (arrives d f now_ms) r (k, s, e, v, g) h =
      let good = push_frame-Good sent l k s d f now_ms r e v g h in
      (good.0, λ a q. (k, s, e, good.1 a q))
  step_keeps (sweeps now_ms) r own h =
      (expire-Every (IsKnown sent) l now_ms r h, λ a q. absurd (cc))
  step_keeps (closes_session session) r own h =
      (drop_session-Every (IsKnown sent) session r h, λ a q. absurd (cc))
  step_keeps (closes_flow wire_id) r own h =
      (drop_flow-Every (IsKnown sent) wire_id r h, λ a q. absurd (cc))

  keep-All :
      (o : Option R2Assembled) (rest : List R2Assembled)
      → ((a : R2Assembled) → o ≡ some a → IsWholeBy sent a)
      → All (IsWholeBy sent) rest
      → All (IsWholeBy sent) (keep o rest)
  keep-All none rest whole h = h
  keep-All (some a) rest whole h = (whole a refl, h)

  delivered_from :
      (es : List Event) (r : R2Reassembler)
      → All (IsSentBy sent) es
      → Intact sent r
      → All (IsWholeBy sent) (delivered l es r)
  unfolding delivered
  delivered_from [] r own h = tt
  delivered_from (e ∷ es) r own h =
      let s = step_keeps e r own.0 h in
      keep-All (step l e r).0 (delivered l es (step l e r).1) s.1
        (delivered_from es (step l e r).1 own.1 s.0)

-- Let every key stand for at most one payload, split by an accepted plan, and let every frame that
-- arrives carry a chunk of one of them. Then whatever else happens, in any order of arrival, with
-- duplicates, losses, sweeps, evictions and closes between, each payload that a new reassembler
-- delivers is whole: its bytes, its id and its session and address are those that were sent.
pub delivered-IsWhole :
    (sent : FragKey → Option Sent) (l : Layout) (es : List Event)
    → All (IsSentBy sent) es
    → All (IsWholeBy sent) (delivered l es new)
delivered-IsWhole sent l es own = delivered_from sent l es new own tt
