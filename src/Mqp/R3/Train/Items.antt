-- ===== src/Mqp/R3/Train/Items.antt =====
-- src/mqp/r3.rs: `TrainItems`, the iterator over a decoded frame's `(fid, payload)` items.
use my_quic.Common.{
  ℕ, ◌≡◌, ap, zero, suc, ◌-◌, Option, none, some, List, [], ◌∷◌, leb, ◌==◌, if◌then◌else◌, drop,
  get_elem?, ◌<◌, length, arith, Option-cases, inl, inr, subst, sym, refl, true,
}
use my_quic.Common.Bytes.{Bytes, checked_add, get_range, index}
use my_quic.Common.Opt.{◌>>=◌}
use my_quic.Mqp.R3.Frame.{train_form_same, train_form_same_equal, train_form_dict}
use my_quic.Mqp.R3.Field.{item_len_at}
use my_quic.Mqp.R3.Train.{TrainFrame}

pub record TrainItems : Type 0 where
  pub form : ℕ
  pub remaining : ℕ
  pub item_len : ℕ
  pub nfl : ℕ
  pub flows : List ℕ
  pub items : Bytes

unfoldable pub items : TrainFrame → TrainItems
items f = record {
  form = f.form;
  remaining = f.count;
  item_len = f.item_len;
  nfl = f.nfl;
  flows = f.flows;
  items = f.items;
}

-- An item that starts with its length at `off`, and the bytes behind it.
unfoldable pub sized_item : Bytes → ℕ → Option (Bytes × Bytes)
sized_item items off = do
  (len, off₁) ← item_len_at items off
  end ← checked_add off₁ len
  payload ← get_range items off₁ end
  some (payload, drop end items)

next_same : TrainItems → Option ((ℕ × Bytes) × Bytes)
next_same s = do (payload, rest) ← sized_item s.items 0; some ((index s.flows 0, payload), rest)

next_same_equal : TrainItems → Option ((ℕ × Bytes) × Bytes)
next_same_equal s = do
  payload ← get_range s.items 0 s.item_len
  some ((index s.flows 0, payload), drop s.item_len s.items)

next_dict : TrainItems → Option ((ℕ × Bytes) × Bytes)
next_dict s = do
  idx ← get_elem? s.items 0
  if leb s.nfl idx
      then none
      else (sized_item s.items 1 >>= λ r. some ((index s.flows idx, r.0), r.1))

-- `match self.form`: the item and the new `self.items`.
next_item : TrainItems → Option ((ℕ × Bytes) × Bytes)
unfolding next_same next_same_equal next_dict
next_item s =
    if s.form == train_form_same
    then next_same s
    else if s.form == train_form_same_equal
    then next_same_equal s
    else if s.form == train_form_dict
    then next_dict s
    else none

-- The count falls before the item is read, and stays so where the read fails.
unfoldable pub next : TrainItems → Option (ℕ × Bytes) × TrainItems
unfolding next_item
next s = if s.remaining == 0 then (none, s) else elim (next_item s) [
  | none ↦ (none, record s { remaining = s.remaining - 1 })
  | some (item, rest) ↦ (some item, record s { remaining = s.remaining - 1; items = rest })
]

-- `collect`, cut off after the given number of calls of `next`; it stops at the first that returns
-- nothing.
unfoldable pub collect : ℕ → TrainItems → List (ℕ × Bytes)
collect zero s = []
collect (suc n) s = let (item, s') = next s in elim item [ none ↦ [] | some x ↦ x ∷ collect n s' ]

-- One call is allowed beyond the count, so that an iterator that goes on past it shows.
abbrev pub all_items : TrainFrame → List (ℕ × Bytes)
all_items f = collect (suc f.count) (items f)

-- The calls of `next` return the items in their order, and the call after the last returns nothing.
abbrev pub Gives : TrainItems → List (ℕ × Bytes) → Type 0
Gives s [] = (next s).0 ≡ none
Gives s (x ∷ xs) = ((next s).0 ≡ some x) × Gives (next s).1 xs

collect_end : (n : ℕ) (s : TrainItems) → (next s).0 ≡ none → collect (suc n) s ≡ []
unfolding collect
collect_end n s e = rw (e, collect) refl

-- The iterator ends once the count is spent.
pub collect_spent : (n : ℕ) (s : TrainItems) → s.remaining ≡ 0 → collect (suc n) s ≡ []
unfolding next
collect_spent n s h =
    let spent : (s.remaining == 0) ≡ true = ground (arith, h) in collect_end n s (rw spent refl)

collect_more :
    (n : ℕ) (s : TrainItems) {x : ℕ × Bytes}
    → (next s).0 ≡ some x
    → collect (suc n) s ≡ x ∷ collect n (next s).1
unfolding collect
collect_more n s e = rw (e, collect) refl

-- A `collect` that was not cut off has all the items.
collect-Gives : (n : ℕ) (s : TrainItems) → length (collect n s) < n → Gives s (collect n s)
collect-Gives zero s h = absurd (omega arith)
collect-Gives (suc n) s h = elim (Option-cases (next s).0) [
  | inl e ↦ subst (Gives s) (sym (collect_end n s e)) e
  | inr (x, e) ↦
      let eq = collect_more n s e in
      subst (Gives s) (sym eq) (e, collect-Gives n (next s).1 (omega (arith, h, ap length eq)))
]

pub all_items-Gives :
    (f : TrainFrame) {its : List (ℕ × Bytes)}
    → all_items f ≡ its
    → length its ≡ f.count
    → Gives (items f) its
all_items-Gives f e h =
    subst (Gives (items f)) e
      (collect-Gives (suc f.count) (items f) (omega (arith, h, ap length e)))

-- One call of `next` that returned an item, in front of the others.
pub collect_step :
    (n : ℕ) (s s' : TrainItems) (x : ℕ × Bytes)
    → next s ≡ (some x, s')
    → collect (suc n) s ≡ x ∷ collect n s'
unfolding collect
collect_step n s s' x e = rw (e, collect) (ap (λ r. x ∷ collect n r.1) e)
