-- ===== src/Mqp/Flow/Handshake/Budget.antt =====
-- src/mqp/r2_flow.rs, `CtlState`, beside the receiver's budget of src/mqp/ctl_stream.rs: one counts
-- up to its limit, the other down from it.
use my_quic.Common.{
  ℕ, ◌+◌, ◌≤◌, ◌≡◌, refl, Bool, true, false, Option, none, some, List, [], ◌∷◌, arith,
}
use my_quic.Mqp.CtlStream
use my_quic.Mqp.CtlStream.{CtlRate, allow}
use my_quic.Mqp.Flow.Handshake.{
  Caps, CtlState, ctl_max_per_sec, new, set_caps, mark_hello, ctl_allowed,
}

-- What a connection does with its state: the answer to a HELLO or a CAPS, and a control frame that
-- asks for a unit at a time.
pub data Event : Type 0 where
  hello : Event
  capabilities : Caps → Event
  frame : ℕ → Event

-- The answers to the frames, and the state after the events.
unfoldable pub answers : List Event → CtlState → List Bool × CtlState
answers [] s = ([], s)
answers (hello ∷ es) s = answers es (mark_hello s)
answers (capabilities c ∷ es) s = answers es (set_caps c s)
answers (frame t ∷ es) s =
    let (ok, s') = ctl_allowed t s in let (oks, s'') = answers es s' in (ok ∷ oks, s'')

unfoldable pub budget_answers : List Event → CtlRate → List Bool
budget_answers [] r = []
budget_answers (hello ∷ es) r = budget_answers es r
budget_answers (capabilities c ∷ es) r = budget_answers es r
budget_answers (frame t ∷ es) r = let (ok, r') = allow r t in ok ∷ budget_answers es r'

unfoldable pub greeted : List Event → Bool → Bool
greeted [] b = b
greeted (hello ∷ es) b = greeted es true
greeted (capabilities c ∷ es) b = greeted es b
greeted (frame t ∷ es) b = greeted es b

unfoldable pub last_caps : List Event → Option Caps → Option Caps
last_caps [] o = o
last_caps (hello ∷ es) o = last_caps es o
last_caps (capabilities c ∷ es) o = last_caps es (some c)
last_caps (frame t ∷ es) o = last_caps es o

-- The two are in the same window, and what one has counted the other has no longer.
Mirrors : CtlState → CtlRate → Type 0
Mirrors s r =
    (s.ctl_rate.window_ms ≡ r.window_ms)
    × (r.max_per_sec ≡ ctl_max_per_sec)
    × (s.ctl_rate.count + r.count ≡ ctl_max_per_sec)

-- A call at the same time gets the same answer, and the two stay mirrors.
allowed-Mirrors :
    (t : ℕ) (s : CtlState) (r : CtlRate)
    → Mirrors s r
    → ((ctl_allowed t s).0 ≡ (allow r t).0) × Mirrors (ctl_allowed t s).1 (allow r t).1
unfolding ctl_allowed allow Mirrors
allowed-Mirrors t s r (w, m, c) = ground arith

-- What the events leave and answer, told without the state.
Kept : List Event → CtlState → CtlRate → Type 0
Kept es s r =
    ((answers es s).0 ≡ budget_answers es r)
    × ((answers es s).1.ctl_rate.count ≤ ctl_max_per_sec)
    × ((answers es s).1.hello_seen ≡ greeted es s.hello_seen)
    × ((answers es s).1.caps ≡ last_caps es s.caps)

answers-Kept : (es : List Event) (s : CtlState) (r : CtlRate) → Mirrors s r → Kept es s r
unfolding answers budget_answers greeted last_caps Mirrors Kept mark_hello set_caps ctl_allowed
answers-Kept [] s r h = (refl, omega arith, refl, refl)
answers-Kept (hello ∷ es) s r h = answers-Kept es (mark_hello s) r h
answers-Kept (capabilities c ∷ es) s r h = answers-Kept es (set_caps c s) r h
answers-Kept (frame t ∷ es) s r h =
    let step = allowed-Mirrors t s r h in
    let ih = answers-Kept es (ctl_allowed t s).1 (allow r t).1 step.1 in (cc, ih.1, ih.2, ih.3)

-- Over any events of a new connection and at any times, `ctl_allowed` answers each frame as the
-- budget of the control stream that starts with the same limit does, and its count never passes the
-- limit; the state has seen a HELLO exactly if one was among the events, and holds the last CAPS.
pub ctl_allowed-allow :
    (es : List Event)
    → ((answers es new).0 ≡ budget_answers es (CtlStream.new ctl_max_per_sec))
      × ((answers es new).1.ctl_rate.count ≤ ctl_max_per_sec)
      × ((answers es new).1.hello_seen ≡ greeted es false)
      × ((answers es new).1.caps ≡ last_caps es none)
unfolding Kept Mirrors new CtlStream.new
ctl_allowed-allow es = answers-Kept es new (CtlStream.new ctl_max_per_sec) (refl, refl, refl)
