-- ===== src/Udp/Reasm/Taken.antt =====
-- src/udp/r2_reasm.rs: the partial of a payload that a sender split by its plan, as a frame reaches it.
use my_quic.Common.{
  ℕ, ◌≤◌, ◌<◌, ◌≡◌, ◌⊎◌, refl, ap, ◌∙◌, sym, subst, true, Option, none, some, arith, ◌==◌,
  if◌then◌else◌, length, get_elem?, drop, Bool-cases, inl, inr, ==→eq,
}
use my_quic.Common.Bytes.{Bytes}
use my_quic.Udp.Frag.{chunks}
use my_quic.Udp.Frag.Split.{Planned, piece, chunks_at}
use my_quic.Udp.Partial
use my_quic.Udp.Partial.{
  Layout, FragCtx, Partial, bit, set_bit, pos_of, arrived, land, is_complete, is_middle,
}
use my_quic.Udp.Partial.Lists.{bit-set_bit, bit-replicate}
use my_quic.Udp.Partial.Sent.{Sent}
use my_quic.Udp.Partial.Land.{Tidy, Landed, land-Landed, all_landed, buf_whole}
use my_quic.Udp.Reasm
use my_quic.Udp.Reasm.{
  FragKey, FragIn, R2Assembled, R2Reassembler, Parts, key_of, incoming_of, sess_of, addr_of, src_of,
  or_ctx, with_ctx, position, past_cap, take_fragment, deliver, prune_orders, queue_slot, put,
  erase, none_landed, push_part, push_frame, refused_by, refused_shape, estimate, make_room, lookup,
  single, key_from, is_some,
}

abbrev pub IsSent : Sent → Type 0
IsSent s = Planned s.limit (length s.payload) s.plan

-- The frame carries a chunk of the payload that was sent under the key: its bytes end the buffer, and
-- its context is the sender's, which the first frame does not leave out.
pub record IsFrameOf (k : FragKey) (s : Sent) (d : Bytes) (f : FragIn) : Type 0 where
  pub same_key : key_of f ≡ some k
  pub same_total : f.total ≡ s.plan.total
  pub inside : f.idx < s.plan.total
  pub its_chunk : get_elem? (chunks s.plan s.payload) f.idx ≡ some f.chunk
  pub tail : drop f.chunk_off d ≡ f.chunk
  pub its_ctx : (incoming_of f ≡ some none) ⊎ (incoming_of f ≡ some s.ctx)
  pub first_ctx : f.idx ≡ 0 → incoming_of f ≡ some s.ctx

-- The delivered payload is the one that was sent, for its flow or its session and address.
pub record IsWhole (k : FragKey) (s : Sent) (a : R2Assembled) : Type 0 where
  pub same_payload : a.payload ≡ s.payload
  pub same_id : a.wire_id ≡ (if k.inline then none else some k.id)
  pub same_sess : a.sess ≡ sess_of s.ctx
  pub same_addr : a.addr ≡ addr_of s.ctx

-- A partial of the payload, between fragments.
pub record IsPart (s : Sent) (p : Partial) : Type 0 where
  pub tidy : Tidy s.payload s.plan p
  pub some_ctx : (p.ctx ≡ none) ⊎ (p.ctx ≡ s.ctx)
  pub known_ctx : bit p.got 0 ≡ true → p.ctx ≡ s.ctx

or_ctx_some :
    (old incoming c : Option FragCtx)
    → (old ≡ none) ⊎ (old ≡ c)
    → (incoming ≡ none) ⊎ (incoming ≡ c)
    → (or_ctx old incoming ≡ none) ⊎ (or_ctx old incoming ≡ c)
or_ctx_some none incoming c h g = g
or_ctx_some (some x) incoming c h g = h

or_ctx_known :
    (old incoming c : Option FragCtx)
    → old ≡ c
    → (incoming ≡ none) ⊎ (incoming ≡ c)
    → or_ctx old incoming ≡ c
or_ctx_known none incoming c h (inl g) = g ∙ h
or_ctx_known none incoming c h (inr g) = g
or_ctx_known (some x) incoming c h g = h

or_ctx_first :
    (old incoming c : Option FragCtx)
    → (old ≡ none) ⊎ (old ≡ c)
    → incoming ≡ c
    → or_ctx old incoming ≡ c
or_ctx_first none incoming c h g = g
or_ctx_first (some x) incoming c (inl h) g = absurd (cc)
or_ctx_first (some x) incoming c (inr h) g = h

module _ (s : Sent) (v : IsSent s) (several : 2 ≤ s.plan.total) where
  -- A partial with the context of a frame.
  abbrev pub Carried : FragIn → Option FragCtx → Type 0
  Carried f incoming = ((incoming ≡ none) ⊎ (incoming ≡ s.ctx)) × (f.idx ≡ 0 → incoming ≡ s.ctx)

  -- What holds of the partial that `take_fragment` gets: the context of the first frame is there.
  pub record IsTaken (f : FragIn) (p : Partial) : Type 0 where
    pub tidy : Tidy s.payload s.plan p
    pub some_ctx : (p.ctx ≡ none) ⊎ (p.ctx ≡ s.ctx)
    pub known_ctx : bit p.got 0 ≡ true → p.ctx ≡ s.ctx
    pub first_ctx : f.idx ≡ 0 → p.ctx ≡ s.ctx

  pub new-IsTaken :
      (f : FragIn) (incoming : Option FragCtx) (now_ms : ℕ)
      → f.total ≡ s.plan.total
      → Carried f incoming
      → IsTaken f (Partial.new f.total incoming now_ms)
  unfolding Partial.new
  new-IsTaken f incoming now_ms e c = record {
    tidy = record {
      fits = record {
        same_total = e;
        mask = refl;
        first_ok = tt;
        first_known = λ b. absurd (cc);
        unit_ok = tt;
        unit_known = λ i one h b. absurd (cc (bit-replicate 64 i, b));
        within = omega arith;
        landed = λ i h b. absurd (cc (bit-replicate 64 i, b));
        genuine = tt;
      };
      stuck = tt;
    };
    some_ctx = c.0;
    known_ctx = λ b. absurd (cc);
    first_ctx = c.1;
  }

  pub with_ctx-IsTaken :
      (f : FragIn) (incoming : Option FragCtx) (p : Partial)
      → IsPart s p
      → Carried f incoming
      → IsTaken f (with_ctx incoming p)
  with_ctx-IsTaken f incoming p h c =
      let t = h.tidy in
      record {
        tidy = record {
          fits = record {
            same_total = t.fits.same_total;
            mask = t.fits.mask;
            first_ok = t.fits.first_ok;
            first_known = t.fits.first_known;
            unit_ok = t.fits.unit_ok;
            unit_known = t.fits.unit_known;
            within = t.fits.within;
            landed = t.fits.landed;
            genuine = t.fits.genuine;
          };
          stuck = t.stuck;
        };
        some_ctx = or_ctx_some p.ctx incoming s.ctx h.some_ctx c.0;
        known_ctx = λ b. or_ctx_known p.ctx incoming s.ctx (h.known_ctx b) c.0;
        first_ctx = λ e. or_ctx_first p.ctx incoming s.ctx h.some_ctx (c.1 e);
      }

  module _ (l : Layout) (k : FragKey) (d : Bytes) (f : FragIn) (g : IsFrameOf k s d f) where
    chunk_is : f.chunk ≡ piece s.plan s.payload f.idx
    chunk_is = cc (chunks_at s.payload s.plan v f.idx g.inside, g.its_chunk)

    module _ (p : Partial) (t : IsTaken f p) where
      abbrev pub landed : Partial
      landed = land l f.idx f.chunk (position p f) p

      landed-Landed : Landed s.payload s.plan s.limit v l several p t.tidy f.idx g.inside landed
      unfolding position arrived
      landed-Landed =
          subst
            (λ c. Landed s.payload s.plan s.limit v l several p t.tidy f.idx g.inside (
              land l f.idx c (pos_of (arrived f.idx c p).first_len (arrived f.idx c p).unit f.idx)
                p))
            (sym chunk_is)
            (land-Landed s.payload s.plan s.limit v l several p t.tidy f.idx g.inside)

      pub landed-IsPart : IsPart s landed
      landed-IsPart =
          let w = landed-Landed in
          let first =
            bit-set_bit p.got f.idx 0 (omega (arith, t.tidy.fits.mask, v.total_small, g.inside)) in
          record {
            tidy = w.tidy;
            some_ctx = subst (λ o. (o ≡ none) ⊎ (o ≡ s.ctx)) (sym w.same_ctx) t.some_ctx;
            known_ctx = λ b.
                let b' : bit (set_bit p.got f.idx) 0 ≡ true =
                  ap (λ m. bit m 0) (sym w.same_got) ∙ b in
                w.same_ctx ∙ elim (Bool-cases (f.idx == 0)) [
                  | inl e ↦ t.first_ctx (==→eq f.idx 0 e)
                  | inr e ↦ t.known_ctx (ground (arith, first, b', e))
                ];
          }

      pub complete-IsWhole : is_complete landed ≡ true → IsWhole k s (Reasm.assembled k f landed)
      complete-IsWhole done =
          let q = landed-IsPart in
          let first =
            all_landed s.payload s.plan s.limit v l several landed q.tidy done 0 (omega arith) in
          record {
            same_payload = buf_whole s.payload s.plan s.limit v l several landed q.tidy done;
            same_id = refl;
            same_sess = ap sess_of (q.known_ctx first);
            same_addr = ap addr_of (q.known_ctx first);
          }
