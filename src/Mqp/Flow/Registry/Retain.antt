-- ===== src/Mqp/Flow/Registry/Retain.antt =====
-- src/mqp/r2_flow.rs: a purge through the session index takes out and closes what a walk over the
-- whole table would.
use my_quic.Common.{
  ℕ, ◌+◌, ◌<◌, ◌^◌, ◌≡◌, refl, sym, ◌∙◌, true, some, List, [], ◌∷◌, ◌==◌, if◌then◌else◌, length,
  arith, Bool-cases, inl, inr,
}
use my_quic.Common.Assoc.{lookup, erase}
use my_quic.Mqp.R2.{wire_id_server_owned}
use my_quic.Mqp.Flow.Binding.{FlowBinding, FlowCell, cell_of, write, mark_closed}
use my_quic.Mqp.Flow.Registry.{fetch_sub}
use my_quic.Mqp.Flow.Registry.Purge.{Sweep, purge_one, purge}
use my_quic.Mqp.Flow.Registry.Tally.{
  count, held, owned, of_session, others, closes, Keyed, Unique, erase-Unique, held-erase,
  owned-erase, of_session-erase, length-erase, others-erase, closes-erase, erase-Keyed,
  owned-le-length, held-lookup, held_none, closes_none, count_head, count_nil,
}

pub fetch_sub_lem : (n m : ℕ) → n ≡ m + 1 → n < 2 ^ 64 → fetch_sub n ≡ m
fetch_sub_lem n m e h = omega arith

-- A purge of session `s` that is yet to see the ids.
pub record Purging (s : ℕ) (ids : List ℕ) (w : Sweep) : Type 0 where
  pub unique : Unique w.map
  pub keyed : Keyed w.map
  pub listed : (k : ℕ) → count k ids ≡ held s k w.map
  pub counted : w.count ≡ owned w.map
  pub small : length w.map < 2 ^ 64

-- The cells after the bindings of a session were closed.
abbrev pub close_session : ℕ → Sweep → ℕ → FlowCell
close_session s w p = if closes s p w.map then mark_closed (w.store.cells p) else w.store.cells p

-- What the whole purge makes of `w`.
pub record Purged (s : ℕ) (w w' : Sweep) : Type 0 where
  pub map_others : w'.map ≡ others s w.map
  pub removed_all : w'.removed ≡ w.removed + of_session s w.map
  pub counted : w'.count ≡ owned w'.map
  pub closed_all : (p : ℕ) → w'.store.cells p ≡ close_session s w p
  pub same_fresh : w'.store.fresh ≡ w.store.fresh

module _ (s k : ℕ) (w : Sweep) (b : FlowBinding) (found : lookup k w.map ≡ some b) where
  -- The body of the loop, for an id that is bound to `b`.
  abbrev pub dropped : Sweep
  dropped = record {
    removed = w.removed + 1;
    map = erase k w.map;
    count = if wire_id_server_owned b.wire_id then fetch_sub w.count else w.count;
    store = write w.store b (mark_closed (cell_of w.store b));
  }

  pub purge_one_found : purge_one k w ≡ dropped
  unfolding purge_one
  purge_one_found = rw (found, purge_one) refl

  pub dropped_count :
      w.count ≡ owned w.map → length w.map < 2 ^ 64 → dropped.count ≡ owned dropped.map
  dropped_count e h = elim (Bool-cases (wire_id_server_owned b.wire_id)) [
    | inl o ↦ ground (
      arith,
      owned-erase k w.map found,
      owned-le-length w.map,
      fetch_sub_lem w.count (owned (erase k w.map)),
    )
    | inr o ↦ ground (arith, owned-erase k w.map found)
  ]

  pub dropped-Purging :
      (ids : List ℕ) → (b.session == s) ≡ true → Purging s (k ∷ ids) w → Purging s ids dropped
  unfolding count
  dropped-Purging ids mine g = record {
    unique = erase-Unique k w.map found g.unique;
    keyed = erase-Keyed k w.map g.keyed;
    listed = λ j. ground (arith, g.listed j, held-erase k s j w.map found);
    counted = dropped_count g.counted g.small;
    small = omega (arith, length-erase k w.map found, g.small);
  }

  pub dropped-Purged : {w' : Sweep} → (b.session == s) ≡ true → Purged s dropped w' → Purged s w w'
  unfolding mark_closed
  dropped-Purged {w'} mine g = record {
    map_others = g.map_others ∙ others-erase k s w.map found mine;
    removed_all = ground (arith, g.removed_all, of_session-erase k s w.map found);
    counted = g.counted;
    closed_all = λ p. ground (arith, g.closed_all p, closes-erase k s p w.map found);
    same_fresh = g.same_fresh;
  }

pub purge-Purged : (s : ℕ) (ids : List ℕ) (w : Sweep) → Purging s ids w → Purged s w (purge ids w)
unfolding purge
purge-Purged s [] w g =
    let (same, none_left) = held_none s w.map (λ k. sym (g.listed k) ∙ count_nil k) in
    record {
      map_others = sym same;
      removed_all = omega (arith, none_left);
      counted = g.counted;
      closed_all = λ p. rw (closes_none s p w.map none_left) refl;
      same_fresh = refl;
    }
purge-Purged s (k ∷ ids) w g =
    let (b, found, mine) =
      held-lookup s k w.map (g.unique k) (omega (arith, count_head k ids, g.listed k)) in
    rw (purge_one_found s k w b found) (
      dropped-Purged s k w b found mine
        (purge-Purged s ids (dropped s k w b found) (dropped-Purging s k w b found ids mine g)))
