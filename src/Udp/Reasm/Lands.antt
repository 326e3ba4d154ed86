-- ===== src/Udp/Reasm/Lands.antt =====
-- src/udp/r2_reasm.rs: a frame of the payload lands, among those that are still to arrive.
use my_quic.Common.{
  ℕ, ◌+◌, ◌^◌, ◌≤◌, ◌<◌, ◌≡◌, refl, ap, sym, subst, Bool, false, Option, List, [], ◌∷◌, arith, ◌==◌,
  ==→eq, if◌then◌else◌, length, All, Bool-cases, inl, inr,
}
use my_quic.Common.Bytes.{Bytes}
use my_quic.Mqp.Fragment.{frag_timeout_ms}
use my_quic.Udp.Partial.{Layout, Partial, bit, is_complete}
use my_quic.Udp.Partial.Sent.{Sent}
use my_quic.Udp.Partial.Land.{all_landed}
use my_quic.Udp.Partial.Bounded.{IsModest}
use my_quic.Udp.Reasm.{
  FragKey, FragIn, R2Assembled, R2Reassembler, put, take_fragment, assembled, deliver, release,
  expire, queue_slot,
}
use my_quic.Udp.Reasm.Deliver.{
  Event, arrives, sweeps, closes_session, closes_flow, step, keep, delivered,
}
use my_quic.Udp.Reasm.Taken.{IsSent, IsFrameOf, IsWhole, IsTaken, complete-IsWhole}
use my_quic.Udp.Reasm.Live.{
  IsLanding, IsLive, landed, bit_landed, landed_ms, next, next-IsLive, take_fragment_due,
}

-- How many frames of an index arrive.
abbrev pub tally : ℕ → List Event → ℕ
tally i [] = 0
tally i (arrives d f now_ms ∷ es) = (if f.idx == i then 1 else 0) + tally i es
tally i (e ∷ es) = tally i es

-- A time before the timeout of a partial that was opened at `from_ms` or later.
abbrev pub InTime : ℕ → ℕ → Type 0
InTime from_ms now_ms = (from_ms ≤ now_ms) × (now_ms < from_ms + frag_timeout_ms)

-- A frame of the payload, or a sweep, in time.
abbrev pub IsRunOf : FragKey → Sent → ℕ → Event → Type 0
IsRunOf k s from_ms (arrives d f now_ms) =
    IsFrameOf k s d f × (length d < 2 ^ 64) × InTime from_ms now_ms
IsRunOf k s from_ms (sweeps now_ms) = InTime from_ms now_ms
IsRunOf k s from_ms e = ⊥

abbrev one_if : Bool → ℕ
one_if b = if b then 1 else 0

module _ (s : Sent) (v : IsSent s) (several : 2 ≤ s.plan.total) (k : FragKey) (l : Layout)
    (m : IsModest l) (from_ms : ℕ) where
  abbrev pub Run : List Event → Type 0
  Run = All (IsRunOf k s from_ms)

  abbrev pub Delivers : List R2Assembled → Type 0
  Delivers got = (a : R2Assembled) × (got ≡ a ∷ []) × IsWhole k s a

  abbrev pub Outcome : List Event → R2Reassembler → Type 0
  Outcome es r = Delivers (delivered l es r)

  -- What is still to arrive.
  abbrev pub Due : List Event → Partial → Type 0
  Due es p = (i : ℕ) → i < s.plan.total → tally i es + one_if (bit p.got i) ≡ 1

  quiet :
      (es : List Event) (r : R2Reassembler)
      → Run es
      → ((i : ℕ) → i < s.plan.total → tally i es ≡ 0)
      → delivered l es r ≡ []
  unfolding delivered step
  quiet [] r own h = refl
  quiet (arrives d f now_ms ∷ es) r own h = absurd (ground (arith, h f.idx own.0.0.inside))
  quiet (sweeps now_ms ∷ es) r own h = quiet es (expire l now_ms r) own.1 h
  quiet (closes_session x ∷ es) r own h = absurd own.0
  quiet (closes_flow x ∷ es) r own h = absurd own.0

  module _ (d : Bytes) (f : FragIn) (g : IsFrameOf k s d f) (short : length d < 2 ^ 64)
      (p : Partial) (t : IsTaken s v several f p) (h : IsLanding s v several p)
      (clear : bit p.got f.idx ≡ false) where
    abbrev pub now_landed : Partial
    now_landed = landed s v several k d f g short l m p t h.bounded h.weighed h.above clear

    abbrev pub Ends : List Event → Option R2Assembled × R2Reassembler → Type 0
    Ends es (o, r) = Delivers (keep o (delivered l es r))

    landed-Due :
        (es : List Event) (now_ms : ℕ) → Due (arrives d f now_ms ∷ es) p → Due es now_landed
    landed-Due es now_ms due i inside =
        let b = bit_landed s v several k d f g short l m p t h.bounded h.weighed h.above clear i in
        let had = due i inside in
        elim (Bool-cases (f.idx == i)) [
          | inl e ↦ ground (arith, b, had, e, clear, ap (bit p.got) (==→eq f.idx i e))
          | inr e ↦ ground (arith, b, had, e)
        ]

    ends :
        (es : List Event) (r : R2Reassembler)
        → Run es
        → IsLive s v several k r now_landed
        → Due es now_landed
        → (is_complete now_landed ≡ false → Outcome es r)
        → Ends es (deliver k f now_landed r)
    ends es r own live due rest = elim (Bool-cases (is_complete now_landed)) [
      | inl done ↦
          let every =
            all_landed s.payload s.plan s.limit v l several now_landed live.landing.part.tidy
              done in
          let over =
            quiet es (release k now_landed r) own
              (λ i inside. ground (arith, due i inside, every i inside)) in
          rw done (
            assembled k f now_landed,
            ap (◌∷◌ (assembled k f now_landed)) over,
            complete-IsWhole s v several l k d f g p t done,
          )
      | inr not_yet ↦ rw not_yet (rest not_yet)
    ]

    pub lands :
        (es : List Event) (is_new : Bool) (now_ms : ℕ) (r : R2Reassembler)
        → length (queue_slot l is_new k now_ms r).order ≤ 1
        → (queue_slot l is_new k now_ms r).order_bytes ≤ 128
        → put k now_landed r.parts ≡ (k, now_landed) ∷ []
        → r.held ≡ p.retained
        → Run es
        → from_ms ≤ p.first_ms
        → Due (arrives d f now_ms ∷ es) p
        → ((r' : R2Reassembler) (q : Partial)
            → IsLive s v several k r' q
            → from_ms ≤ q.first_ms
            → is_complete q ≡ false
            → Due es q
            → Outcome es r')
        → Ends es (take_fragment l k is_new f p now_ms r)
    lands es is_new now_ms r one_slot slot_bytes puts held own since due rest =
        let live =
          next-IsLive s v several k d f g short l m p t h.bounded h.weighed h.above clear is_new
            now_ms r one_slot slot_bytes puts held in
        let ms = landed_ms s v several k d f g short l m p t h.bounded h.weighed h.above clear in
        let after =
          next s v several k d f g short l m p t h.bounded h.weighed h.above clear is_new now_ms r
            one_slot slot_bytes puts held in
        let due' = landed-Due es now_ms due in
        subst (Ends es)
          (sym (
            take_fragment_due s v several k d f g short l m p t h.bounded h.weighed h.above clear
              is_new now_ms r one_slot slot_bytes puts held))
          (ends es after own live due'
            (λ more. rest after now_landed live (omega (arith, ms, since)) more due'))
