-- ===== src/Udp/Reasm/Intact.antt =====
-- src/udp/r2_reasm.rs, `push_frame` on the frames of payloads that a sender split by its plan.
use my_quic.Common.{
  ℕ, ◌+◌, ◌-◌, ◌≤◌, ◌≡◌, ◌⊎◌, refl, ap, ◌∙◌, sym, subst, Bool, true, false, ◌&&◌, not, Option, none,
  some, arith, ◌==◌, if◌then◌else◌, length, take_all, Bool-cases, Option-cases, inl, inr, ==→eq,
}
use my_quic.Common.Bytes.{Bytes}
use my_quic.Udp.Frag.{saturating_add}
use my_quic.Udp.Frag.Split.{piece, chunks_at, last_rest}
use my_quic.Udp.Partial
use my_quic.Udp.Partial.{
  Layout, FragCtx, Partial, bit, set_bit, pos_of, arrived, land, is_complete, is_middle,
}
use my_quic.Udp.Partial.Sent.{Sent}
use my_quic.Udp.Reasm
use my_quic.Udp.Reasm.{
  FragKey, FragIn, R2Assembled, R2Reassembler, Parts, key_of, incoming_of, sess_of, addr_of, src_of,
  or_ctx, with_ctx, position, past_cap, take_fragment, deliver, prune_orders, queue_slot, put,
  erase, none_landed, push_part, push_frame, refused_by, refused_shape, estimate, make_room, lookup,
  single, key_from, is_some,
}
use my_quic.Udp.Reasm.Table.{
  Every, lookup-Every, erase-Every, put-Every, make_room-Every, parts-prune_orders,
}
use my_quic.Udp.Reasm.Taken.{
  IsSent, IsFrameOf, IsWhole, IsPart, IsTaken, Carried, new-IsTaken, with_ctx-IsTaken,
  landed-IsPart, complete-IsWhole,
}

-- The key is a sender's, and the partial is of its payload.
pub record IsKnown (sent : FragKey → Option Sent) (k : FragKey) (p : Partial) : Type 0 where
  pub from : Sent
  pub listed : sent k ≡ some from
  pub planned : IsSent from
  pub several : 2 ≤ from.plan.total
  pub part : IsPart from p

sub_zero : (n : ℕ) → n - 0 ≡ n
sub_zero n = omega arith

some_inj {ℓ} : {A : Type ℓ} {a b : A} → some a ≡ some b → a ≡ b
some_inj h = cc

key_from-id :
    (wire_id sess : Option ℕ) (frag_id : ℕ) (k : FragKey)
    → key_from wire_id sess frag_id ≡ some k
    → wire_id ≡ (if k.inline then none else some k.id)
key_from-id (some id) sess frag_id k e = ground (arith, e)
key_from-id none (some sess) frag_id k e = ground (arith, e)
key_from-id none none frag_id k e = absurd (cc)

module _ (sent : FragKey → Option Sent) where
  abbrev pub Intact : R2Reassembler → Type 0
  Intact r = Every (IsKnown sent) r.parts

  -- Every partial is known, and what is delivered is whole.
  abbrev pub Good : FragKey → Sent → Option R2Assembled × R2Reassembler → Type 0
  Good k s (o, r) = Intact r × ((a : R2Assembled) → o ≡ some a → IsWhole k s a)

  module _ (l : Layout) (k : FragKey) (s : Sent) (e : sent k ≡ some s) (v : IsSent s) (d : Bytes)
      (f : FragIn) (g : IsFrameOf k s d f) (several : 2 ≤ s.plan.total) where
    known : (p : Partial) → IsPart s p → IsKnown sent k p
    known p h = record { from = s; listed = e; planned = v; several = several; part = h }

    deliver-Good :
        (p : Partial) (r : R2Reassembler)
        → (is_complete p ≡ true → IsWhole k s (Reasm.assembled k f p))
        → Intact r
        → Good k s (deliver k f p r)
    deliver-Good p r whole h = elim (Bool-cases (is_complete p)) [
      | inl e ↦ rw e (
        erase-Every (IsKnown sent) k r.parts h,
        λ a q. let same : Reasm.assembled k f p ≡ a = cc in subst (IsWhole k s) same (whole e),
      )
      | inr e ↦ rw e (h, λ a q. absurd (cc))
    ]

    taken : (p : Partial) → IsTaken s v several f p → IsPart s p
    taken p t = record { tidy = t.tidy; some_ctx = t.some_ctx; known_ctx = t.known_ctx }

    refused-Good :
        (b : Bool) (p : Partial) (r : R2Reassembler)
        → IsPart s p
        → Intact r
        → Good k s (none, record r { parts = if b then erase k r.parts else put k p r.parts })
    refused-Good true p r own h = (erase-Every (IsKnown sent) k r.parts h, λ a q. absurd (cc))
    refused-Good false p r own h =
        (put-Every (IsKnown sent) k p r.parts (known p own) h, λ a q. absurd (cc))

    parts-queue_slot :
        (b : Bool) (now_ms : ℕ) (r : R2Reassembler) → (queue_slot l b k now_ms r).parts ≡ r.parts
    parts-queue_slot true now_ms r = refl
    parts-queue_slot false now_ms r = refl

    take_fragment-Good :
        (is_new : Bool) (p : Partial) (now_ms : ℕ) (r : R2Reassembler)
        → IsTaken s v several f p
        → Intact r
        → Good k s (take_fragment l k is_new f p now_ms r)
    unfolding take_fragment
    take_fragment-Good is_new p now_ms r t h =
        elim (Bool-cases (past_cap (position p f) (length f.chunk))) [
          | inl e ↦ rw e (refused-Good (none_landed p.got) p r (taken p t) h)
          | inr e ↦
              let new_part = land l f.idx f.chunk (position p f) p in
              let own = known new_part (landed-IsPart s v several l k d f g p t) in
              let kept : R2Reassembler = record r {
                parts = put k new_part r.parts;
                held = saturating_add (r.held - p.retained) new_part.retained;
              } in
              let queued = queue_slot l is_new k now_ms kept in
              let same = parts-prune_orders l queued ∙ parts-queue_slot is_new now_ms kept in
              let h' = put-Every (IsKnown sent) k new_part r.parts own h in
              rw e (
                deliver-Good new_part (prune_orders l queued)
                  (complete-IsWhole s v several l k d f g p t)
                  (subst (Every (IsKnown sent)) (sym same) h'))
        ]

    known-IsPart : (p : Partial) → IsKnown sent k p → IsPart s p
    known-IsPart p h =
        let same : h.from ≡ s = cc (h.listed, e) in subst (λ x. IsPart x p) same h.part

    push_part-Good :
        (incoming : Option FragCtx) (now_ms : ℕ) (r : R2Reassembler)
        → Carried s v several f incoming
        → Intact r
        → Good k s (push_part l k incoming f now_ms r)
    unfolding push_part
    push_part-Good incoming now_ms r c h = elim (Option-cases (lookup k r.parts)) [
      | inl absent ↦
          let room = make_room l (length r.parts + 1) (estimate l f) r in
          let h' = make_room-Every (IsKnown sent) l (length r.parts + 1) (estimate l f) r h in
          rw (absent, push_part)
            (elim (Bool-cases room.0) [
              | inl fits ↦
                  rw (fits, push_part)
                    (take_fragment-Good true (Partial.new f.total incoming now_ms) now_ms room.1
                      (new-IsTaken s v several f incoming now_ms g.same_total c) h')
              | inr full ↦ rw (full, push_part) (h', λ a q. absurd (cc))
            ])
      | inr (p, found) ↦
          let own = known-IsPart p (lookup-Every (IsKnown sent) k r.parts h found) in
          rw (found, push_part)
            (elim (Bool-cases (refused_by l r p incoming f)) [
              | inl no_thanks ↦ rw no_thanks (h, λ a q. absurd (cc))
              | inr fine ↦ rw fine (
                  take_fragment-Good false (with_ctx incoming p) now_ms r
                    (with_ctx-IsTaken s v several f incoming p own c) h)
            ])
    ]

  -- The one chunk of a payload that is not split.
  single-IsWhole :
      (k : FragKey) (s : Sent) (v : IsSent s) (d : Bytes) (f : FragIn) (g : IsFrameOf k s d f)
      → s.plan.total ≡ 1
      → IsWhole k s (single d f s.ctx)
  unfolding key_of
  single-IsWhole k s v d f g one =
      let at = chunks_at s.payload s.plan v f.idx g.inside in
      let first : f.idx ≡ 0 = omega (arith, g.inside) in
      let chunk : f.chunk ≡ piece s.plan s.payload 0 =
        cc (at, g.its_chunk, ap (piece s.plan s.payload) first) in
      let whole = last_rest s.payload s.plan v 0 (omega arith) ∙ sub_zero (length s.payload) in
      record {
        same_payload = g.tail ∙ chunk ∙ take_all _ s.payload whole;
        same_id = key_from-id f.wire_id f.sess f.frag_id k g.same_key;
        same_sess = refl;
        same_addr = refl;
      }

  module _ (l : Layout) (k : FragKey) (s : Sent) (d : Bytes) (f : FragIn) (now_ms : ℕ)
      (r : R2Reassembler) (e : sent k ≡ some s) (v : IsSent s) (g : IsFrameOf k s d f)
      (h : Intact r) where
    nothing : Good k s (none, r)
    nothing = (h, λ a q. absurd (cc))

    one_or_part :
        (incoming : Option FragCtx)
        → incoming_of f ≡ some incoming
        → (incoming ≡ none) ⊎ (incoming ≡ s.ctx)
        → Good k s (
            if f.total == 1
            then (some (single d f incoming), r)
            else push_part l k incoming f now_ms r)
    one_or_part incoming e' either =
        let first : f.idx ≡ 0 → incoming ≡ s.ctx = λ z. some_inj (sym e' ∙ g.first_ctx z) in
        elim (Bool-cases (f.total == 1)) [
          | inl one ↦
              let total = sym g.same_total ∙ ==→eq f.total 1 one in
              let same = first (omega (arith, g.inside, total)) in
              let whole =
                subst (λ c. IsWhole k s (single d f c)) (sym same)
                  (single-IsWhole k s v d f g total) in
              rw one (h, λ a q. subst (IsWhole k s) (some_inj q) whole)
          | inr more ↦
              let several : 2 ≤ s.plan.total = ground (arith, more, g.same_total, g.inside) in
              rw more (push_part-Good l k s e v d f g several incoming now_ms r (either, first) h)
        ]

    accepted :
        (incoming : Option FragCtx)
        → incoming_of f ≡ some incoming
        → (incoming ≡ none) ⊎ (incoming ≡ s.ctx)
        → Good k s (push_frame l d f now_ms r)
    unfolding push_frame
    accepted incoming e' either = elim (Bool-cases (refused_shape d f)) [
      | inl bad ↦ rw bad nothing
      | inr fine ↦ rw fine (
          rw (g.same_key, push_frame)
            (rw (e', push_frame)
              (elim (Bool-cases (k.inline && not (is_some incoming))) [
                | inl bare ↦ rw bare nothing
                | inr ok ↦ rw ok (one_or_part incoming e' either)
              ])))
    ]

    -- A frame of a sent payload leaves every partial known, and what it completes is whole.
    pub push_frame-Good : Good k s (push_frame l d f now_ms r)
    push_frame-Good = elim g.its_ctx [
      | inl bare ↦ accepted none bare (inl refl)
      | inr full ↦ accepted s.ctx full (inr refl)
    ]
