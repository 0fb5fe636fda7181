-- ===== src/Loadgen/Dial/Sound.antt =====
-- An invariant of every interleaving of `dialLoop`, its dials and the close handler.
use millionws.Base.{
  ℕ, suc, ◌+◌, ◌*◌, ◌≤◌, ◌<◌, ◌≡◌, sym, subst, ◌∙◌, Bool, some, some-injective, arith,
}
use millionws.Base.Int.{pos_part, neg_part}
use millionws.Loadgen.Registry.{Comparable, Registry, len}
use millionws.Loadgen.Registry.Valid.{IsValid}
use millionws.Loadgen.Registry.Lifecycle.{Call, call, gained, lost, call-Follows}
use millionws.Loadgen.Dial.{
  per_tick, Pc, waiting, checking, loaded, passed, holding, marked, returned, State,
}

-- The slots, and the dials counted as pending, that the loop itself has.
abbrev pub taken : Pc → ℕ
taken (holding i) = 1
taken (marked i) = 1
taken _ = 0

abbrev pub counted : Pc → ℕ
counted (marked i) = 1
counted _ = 0

module _ (c : Comparable) where
  -- What a call that reported `b` has done to a valid registry.
  pub call-IsValid :
      (k : Call c) (r : Registry c) {r' : Registry c} {b : Bool}
      → call c k r ≡ some (r', b)
      → IsValid c r
      → IsValid c r' × (len c r' + lost c k b ≡ len c r + gained c k b)
  call-IsValid k r {r'} {b} e v =
      let (q, d, f) = call-Follows c k r v in
      let same : (q, d) ≡ (r', b) = some-injective _ _ (sym f.called ∙ e) in
      subst (λ p. IsValid c p.0 × (len c p.0 + lost c k p.1 ≡ len c r + gained c k p.1)) same
        (f.valid, f.counted)

  module _ (target inflight rate : ℕ) where
    -- What the loop has seen of the connections that are open or in progress, by where it stands.
    abbrev pub Checked : Pc → ℕ → Type 0
    Checked (loaded i seen) open_now =
        (open_now ≤ target + inflight) × (open_now + neg_part seen ≤ pos_part seen + inflight)
    Checked (passed i) open_now = suc open_now ≤ target + inflight
    Checked (holding i) open_now = suc open_now ≤ target + inflight
    Checked (marked i) open_now = suc open_now ≤ target + inflight
    Checked _ open_now = open_now ≤ target + inflight

    pub Checked-mono : (pc : Pc) (m n : ℕ) → n ≤ m → Checked pc m → Checked pc n
    Checked-mono waiting m n h k = omega arith
    Checked-mono (checking i) m n h k = omega arith
    Checked-mono (loaded i seen) m n h (k, l) = (omega arith, omega arith)
    Checked-mono (passed i) m n h k = omega arith
    Checked-mono (holding i) m n h k = omega arith
    Checked-mono (marked i) m n h k = omega arith
    Checked-mono returned m n h k = omega arith

    pub Checked-open : (pc : Pc) (n : ℕ) → Checked pc n → n ≤ target + inflight
    Checked-open waiting n k = k
    Checked-open (checking i) n k = k
    Checked-open (loaded i seen) n k = k.0
    Checked-open (passed i) n k = omega arith
    Checked-open (holding i) n k = omega arith
    Checked-open (marked i) n k = omega arith
    Checked-open returned n k = k

    -- The dials that the loop has started, where the ticks so far allow `budget` of them.
    abbrev pub Begun : Pc → ℕ → ℕ → Type 0
    Begun waiting next budget = next ≤ budget
    Begun returned next budget = next ≤ budget
    Begun (checking i) next budget = (next + per_tick rate ≤ budget + i) × (i ≤ per_tick rate)
    Begun (loaded i seen) next budget = (next + per_tick rate ≤ budget + i) × (i < per_tick rate)
    Begun (passed i) next budget = (next + per_tick rate ≤ budget + i) × (i < per_tick rate)
    Begun (holding i) next budget = (next + per_tick rate ≤ budget + i) × (i < per_tick rate)
    Begun (marked i) next budget = (next + per_tick rate ≤ budget + suc i) × (i < per_tick rate)

    pub Begun-within : (pc : Pc) (next budget : ℕ) → Begun pc next budget → next ≤ budget
    Begun-within waiting next budget k = k
    Begun-within returned next budget k = k
    Begun-within (checking i) next budget (k, l) = omega arith
    Begun-within (loaded i seen) next budget (k, l) = omega arith
    Begun-within (passed i) next budget (k, l) = omega arith
    Begun-within (holding i) next budget (k, l) = omega arith
    Begun-within (marked i) next budget (k, l) = omega arith

    -- The state, with the loop at `pc`.
    pub record Sound (pc : Pc) (s : State c) : Type 0 where
      pub valid : IsValid c s.reg
      pub slots : s.slots ≡ s.dialing + s.added + s.settled + taken pc
      pub few : s.slots ≤ inflight
      pub pending : s.pending ≡ s.dialing + s.added + s.settled + s.released + counted pc
      pub balance : pos_part s.active + s.added ≡ len c s.reg + s.closers + neg_part s.active
      pub bound : Checked pc (len c s.reg + s.dialing)
      pub paced : Begun pc s.next (per_tick rate * s.ticks)
