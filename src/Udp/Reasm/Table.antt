-- ===== src/Udp/Reasm/Table.antt =====
-- src/udp/r2_reasm.rs: a property of every entry survives the operations that only take entries out.
use my_quic.Common.{
  ℕ, zero, suc, ◌≡◌, refl, Bool, true, false, Option, none, some, List, [], ◌∷◌, arith, ◌==◌, All,
  Bool-cases, Option-cases, inl, inr, subst, sym,
}
use my_quic.Udp.Partial.{Layout, Partial}
use my_quic.Udp.Reasm.{
  FragKey, Parts, R2Reassembler, bool_eq, key_eq, lookup, erase, put, live_at, evict_any,
  evict_from, evict_oldest, make_room, has_room, prune_orders, retain_not, expire_from, expire,
  slot_expired, release_live, of_session, of_flow, drop_session, drop_flow,
}

bool_eq→eq : (a b : Bool) → bool_eq a b ≡ true → a ≡ b
bool_eq→eq true true h = refl
bool_eq→eq true false h = absurd (cc)
bool_eq→eq false true h = absurd (cc)
bool_eq→eq false false h = refl

pub key_eq→eq : (a b : FragKey) → key_eq a b ≡ true → a ≡ b
unfolding key_eq
key_eq→eq a b h = ground (arith, bool_eq→eq a.inline b.inline)

pub parts-prune_orders : (l : Layout) (r : R2Reassembler) → (prune_orders l r).parts ≡ r.parts
unfolding prune_orders
parts-prune_orders l r = ground arith

module _ {κ} (P : FragKey → Partial → Type κ) where
  abbrev pub Every : Parts → Type κ
  Every = All (λ e. P e.0 e.1)

  pub lookup-Every : (k : FragKey) (m : Parts) {p : Partial} → Every m → lookup k m ≡ some p → P k p
  unfolding lookup
  lookup-Every k [] h e = absurd (cc)
  lookup-Every k ((j, q) ∷ m) {p} h e = elim (Bool-cases (key_eq j k)) [
    | inl same ↦
        let found : some q ≡ some p = rw same at e in
        let q_is : q ≡ p = cc in subst (λ i. P i p) (key_eq→eq j k same) (subst (P j) q_is h.0)
    | inr other ↦ lookup-Every k m h.1 (rw other at e)
  ]

  pub erase-Every : (k : FragKey) (m : Parts) → Every m → Every (erase k m)
  unfolding erase
  erase-Every k [] h = tt
  erase-Every k ((j, q) ∷ m) h = elim (Bool-cases (key_eq j k)) [
    | inl same ↦ rw same h.1
    | inr other ↦ rw other (h.0, erase-Every k m h.1)
  ]

  pub put-Every : (k : FragKey) (p : Partial) (m : Parts) → P k p → Every m → Every (put k p m)
  unfolding put
  put-Every k p [] own h = (own, tt)
  put-Every k p ((j, q) ∷ m) own h = elim (Bool-cases (key_eq j k)) [
    | inl same ↦ rw same (own, h.1)
    | inr other ↦ rw other (h.0, put-Every k p m own h.1)
  ]

  evict_any-Every : (m : Parts) (r : R2Reassembler) → Every r.parts → Every (evict_any m r).1.parts
  unfolding evict_any
  evict_any-Every [] r h = h
  evict_any-Every ((k, p) ∷ m) r h = erase-Every k r.parts h

  evict_from-Every :
      (l : Layout) (order : List (FragKey × ℕ)) (r : R2Reassembler)
      → Every r.parts
      → Every (evict_from l order r).1.parts
  unfolding evict_from
  evict_from-Every l [] r h = evict_any-Every r.parts r h
  evict_from-Every l ((k, t) ∷ order) r h = elim (Option-cases (live_at k t r.parts)) [
    | inl e ↦ rw (e, evict_from) (evict_from-Every l order _ h)
    | inr (p, e) ↦ rw (e, evict_from) (erase-Every k r.parts h)
  ]

  pub make_room-Every :
      (l : Layout) (fuel est : ℕ) (r : R2Reassembler)
      → Every r.parts
      → Every (make_room l fuel est r).1.parts
  unfolding make_room
  make_room-Every l zero est r h = h
  make_room-Every l (suc fuel) est r h = elim (Bool-cases (has_room est r)) [
    | inl e ↦ rw e h
    | inr e ↦
        let next = evict_from-Every l r.order r h in
        rw e (elim (Bool-cases (evict_oldest l r).0) [
          | inl e' ↦ rw (e', make_room) (make_room-Every l fuel est (evict_oldest l r).1 next)
          | inr e' ↦ rw (e', make_room) next
        ])
  ]

  pub prune_orders-Every :
      (l : Layout) (r : R2Reassembler) → Every r.parts → Every (prune_orders l r).parts
  prune_orders-Every l r h = subst Every (sym (parts-prune_orders l r)) h

  pub retain_not-Every :
      (matches : FragKey → Partial → Bool) (m : Parts) → Every m → Every (retain_not matches m).0
  unfolding retain_not
  retain_not-Every matches [] h = tt
  retain_not-Every matches ((k, p) ∷ m) h = elim (Bool-cases (matches k p)) [
    | inl e ↦ rw e (retain_not-Every matches m h.1)
    | inr e ↦ rw e (h.0, retain_not-Every matches m h.1)
  ]

  pub drop_session-Every :
      (session : ℕ) (r : R2Reassembler) → Every r.parts → Every (drop_session session r).1.parts
  unfolding drop_session
  drop_session-Every session r h = retain_not-Every (of_session session) r.parts h

  pub drop_flow-Every :
      (wire_id : ℕ) (r : R2Reassembler) → Every r.parts → Every (drop_flow wire_id r).1.parts
  unfolding drop_flow
  drop_flow-Every wire_id r h = elim (Bool-cases (wire_id == 0)) [
    | inl e ↦ rw e h
    | inr e ↦ rw e (retain_not-Every (of_flow wire_id) r.parts h)
  ]

  release_live-Every :
      (k : FragKey) (o : Option Partial) (r : R2Reassembler)
      → Every r.parts
      → Every (release_live k o r).parts
  release_live-Every k none r h = h
  release_live-Every k (some p) r h = erase-Every k r.parts h

  expire_from-Every :
      (l : Layout) (now_ms : ℕ) (order : List (FragKey × ℕ)) (r : R2Reassembler)
      → Every r.parts
      → Every (expire_from l now_ms order r).parts
  unfolding expire_from
  expire_from-Every l now_ms [] r h = h
  expire_from-Every l now_ms ((k, t) ∷ order) r h =
      elim (Bool-cases (slot_expired now_ms t (live_at k t r.parts))) [
        | inl e ↦
            rw (e, expire_from)
              (expire_from-Every l now_ms order _ (release_live-Every k (live_at k t r.parts) _ h))
        | inr e ↦ rw (e, expire_from) h
      ]

  pub expire-Every :
      (l : Layout) (now_ms : ℕ) (r : R2Reassembler)
      → Every r.parts
      → Every (expire l now_ms r).parts
  unfolding expire
  expire-Every l now_ms r h =
      prune_orders-Every l (expire_from l now_ms r.order r) (expire_from-Every l now_ms r.order r h)
