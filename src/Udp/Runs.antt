-- ===== src/Udp/Runs.antt =====
-- Fragments on concrete payloads.
use my_quic.Common.{
  ℕ, ◌+◌, ◌≤◌, ◌<◌, ◌≡◌, refl, false, Option, none, some, List, [], ◌∷◌, All, arith, inl, ◌==◌,
  if◌then◌else◌, length, get_elem?, replicate,
}
use my_quic.Common.Bytes.{Bytes}
use my_quic.Udp.Frag
use my_quic.Udp.Frag.{FragPlan, chunks}
use my_quic.Udp.Frag.Split.{join, new-Planned, chunks-new}
use my_quic.Udp.Partial.{Layout}
use my_quic.Udp.Partial.Sent.{Sent}
use my_quic.Udp.Reasm
use my_quic.Udp.Reasm.{
  FragKey, FragIn, R2Assembled, R2Reassembler, push_frame, key_eq, key_of, incoming_of,
}
use my_quic.Udp.Partial.Bounded.{IsModest}
use my_quic.Udp.Reasm.Taken.{IsWhole}
use my_quic.Udp.Reasm.Lands.{tally, IsRunOf}
use my_quic.Udp.Reasm.Once.{delivered-tally}
use my_quic.Udp.Reasm.Account.{Accounted}
use my_quic.Udp.Reasm.Account.Steps.{final, final-Accounted}
use my_quic.Udp.Reasm.Deliver.{
  Event, arrives, sweeps, delivered, IsSentBy, IsWholeBy, delivered-IsWhole,
}

abbrev message : Bytes
message = 10 ∷ 11 ∷ 12 ∷ 13 ∷ 14 ∷ 15 ∷ 16 ∷ []

abbrev plan : FragPlan
plan = record { total = 4; first_hdr = 11; rest_hdr = 10; first_chunk = 1; rest_chunk = 2 }

plan_new : Frag.new 12 11 10 7 ≡ some plan
unfolding Frag.new
plan_new = refl

plan_chunks :
    chunks plan message ≡ (10 ∷ []) ∷ (11 ∷ 12 ∷ []) ∷ (13 ∷ 14 ∷ []) ∷ (15 ∷ 16 ∷ []) ∷ []
unfolding chunks
plan_chunks = refl

abbrev layout : Layout
layout = record {
  partial_size = 200;
  pending_size = 40;
  order_slot_bytes = 24;
  grow_bytes = λ cap needed. needed;
  grow_slots = λ cap needed. needed + 4;
}

abbrev piece : ℕ → Bytes → FragIn
piece idx chunk = record {
  wire_id = some 6;
  sess = none;
  addr = none;
  src = false;
  frag_id = 9;
  idx = idx;
  total = 4;
  chunk_off = 0;
  chunk = chunk;
}

abbrev feed : ℕ → Bytes → R2Reassembler → Option R2Assembled × R2Reassembler
feed idx chunk r = push_frame layout chunk (piece idx chunk) 5 r

-- The last chunk comes first, the first one last.
abbrev backwards : Option R2Assembled × R2Reassembler
backwards =
    let r1 = (feed 3 (15 ∷ 16 ∷ []) Reasm.new).1 in
    let r2 = (feed 1 (11 ∷ 12 ∷ []) r1).1 in
    let r3 = (feed 2 (13 ∷ 14 ∷ []) r2).1 in feed 0 (10 ∷ []) r3

backwards_whole :
    backwards.0
    ≡ some (record { wire_id = some 6; sess = none; addr = none; src = false; payload = message })
unfolding push_frame my_quic.Udp.Partial.new Reasm.key_eq
backwards_whole = refl

chunks-new_example :
    (length (chunks plan message) ≡ 4)
    × (1 ≤ 4)
    × (4 ≤ 64)
    × (join (chunks plan message) ≡ message)
    × ((i : ℕ) (c : Bytes)
        → get_elem? (chunks plan message) i ≡ some c
        → (0 < length c) × ((if i == 0 then 11 else 10) + length c ≤ 12))
chunks-new_example = chunks-new 12 11 10 message plan_new

abbrev the_payload : Sent
the_payload = record { limit = 12; plan = plan; payload = message; ctx = none }

abbrev the_key : FragKey
the_key = record { inline = false; id = 6; frag_id = 9 }

-- The only key that is used.
abbrev sent : FragKey → Option Sent
sent k = if key_eq the_key k then some the_payload else none

abbrev arrival : ℕ → Bytes → Event
arrival idx chunk = arrives chunk (piece idx chunk) 5

arrival-IsSentBy :
    (idx : ℕ) (chunk : Bytes)
    → idx < 4
    → get_elem? (chunks plan message) idx ≡ some chunk
    → IsSentBy sent (arrival idx chunk)
unfolding key_of incoming_of key_eq
arrival-IsSentBy idx chunk h e = (
  the_key,
  the_payload,
  refl,
  new-Planned 12 11 10 7 plan_new,
  record {
    same_key = refl;
    same_total = refl;
    inside = h;
    its_chunk = e;
    tail = refl;
    its_ctx = inl refl;
    first_ctx = λ z. refl;
  },
)

-- Out of order, with a duplicate and a sweep.
abbrev schedule : List Event
schedule =
    arrival 3 (15 ∷ 16 ∷ [])
    ∷ arrival 1 (11 ∷ 12 ∷ [])
    ∷ arrival 3 (15 ∷ 16 ∷ [])
    ∷ sweeps 100
    ∷ arrival 2 (13 ∷ 14 ∷ [])
    ∷ arrival 0 (10 ∷ [])
    ∷ []

delivered-IsWhole_example : All (IsWholeBy sent) (delivered layout schedule Reasm.new)
unfolding chunks
delivered-IsWhole_example = delivered-IsWhole sent layout schedule (
  arrival-IsSentBy 3 (15 ∷ 16 ∷ []) (omega arith) refl,
  (
    arrival-IsSentBy 1 (11 ∷ 12 ∷ []) (omega arith) refl,
    (
      arrival-IsSentBy 3 (15 ∷ 16 ∷ []) (omega arith) refl,
      (
        tt,
        (
          arrival-IsSentBy 2 (13 ∷ 14 ∷ []) (omega arith) refl,
          (arrival-IsSentBy 0 (10 ∷ []) (omega arith) refl, tt),
        ),
      ),
    ),
  ),
)

layout-IsModest : IsModest layout
layout-IsModest = record {
  partial_small = omega arith;
  pending_small = omega arith;
  slot_small = omega arith;
  bytes_double = λ cap needed. omega arith;
  slots_double = λ cap needed. omega arith;
}

arrival-IsRunOf :
    (idx : ℕ) (chunk : Bytes)
    → idx < 4
    → length chunk < 8
    → get_elem? (chunks plan message) idx ≡ some chunk
    → IsRunOf the_key the_payload 0 (arrival idx chunk)
unfolding key_of incoming_of
arrival-IsRunOf idx chunk h small e = (
  record {
    same_key = refl;
    same_total = refl;
    inside = h;
    its_chunk = e;
    tail = refl;
    its_ctx = inl refl;
    first_ctx = λ z. refl;
  },
  omega arith,
  (omega arith, omega arith),
)

-- Each frame once, the first one last, with a sweep.
abbrev each_once : List Event
each_once =
    arrival 3 (15 ∷ 16 ∷ [])
    ∷ arrival 1 (11 ∷ 12 ∷ [])
    ∷ sweeps 100
    ∷ arrival 2 (13 ∷ 14 ∷ [])
    ∷ arrival 0 (10 ∷ [])
    ∷ []

each_once-tally : (i : ℕ) → i < 4 → tally i each_once ≡ 1
each_once-tally i h = ground arith

delivered-tally_example :
    (a : R2Assembled) × (delivered layout each_once Reasm.new ≡ a ∷ [])
    × IsWhole the_key the_payload a
unfolding chunks
delivered-tally_example =
    delivered-tally the_payload the_key layout 0 each_once (new-Planned 12 11 10 7 plan_new)
      (omega arith) layout-IsModest
      (
        arrival-IsRunOf 3 (15 ∷ 16 ∷ []) (omega arith) (omega arith) refl,
        (
          arrival-IsRunOf 1 (11 ∷ 12 ∷ []) (omega arith) (omega arith) refl,
          (
            (omega arith, omega arith),
            (
              arrival-IsRunOf 2 (13 ∷ 14 ∷ []) (omega arith) (omega arith) refl,
              (arrival-IsRunOf 0 (10 ∷ []) (omega arith) (omega arith) refl, tt),
            ),
          ),
        ),
      )
      each_once-tally

final-Accounted_example : Accounted layout 576 (final layout schedule Reasm.new)
final-Accounted_example = final-Accounted layout schedule layout-IsModest

-- A first chunk of one byte that unlocks the last place of a long payload.
abbrev wide_piece : ℕ → Bytes → FragIn
wide_piece idx chunk = record (piece idx chunk) { total = 64 }

abbrev wide_feed : ℕ → Bytes → R2Reassembler → R2Reassembler
wide_feed idx chunk r = (push_frame layout chunk (wide_piece idx chunk) 5 r).1

abbrev queued_two : R2Reassembler
queued_two = wide_feed 63 (2 ∷ []) (wide_feed 1 (replicate 130 1) Reasm.new)

held_two : queued_two.held ≡ 627
unfolding push_frame my_quic.Udp.Partial.new Reasm.key_eq
held_two = refl

held_three : (wide_feed 0 (3 ∷ []) queued_two).held ≡ 8462
unfolding push_frame my_quic.Udp.Partial.new Reasm.key_eq
held_three = refl
