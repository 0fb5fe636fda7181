-- ===== src/Loadgen/Dial/Bounds.antt =====
-- What holds of the load generator's connections in every interleaving.
use millionws.Base.{ℕ, ◌+◌, ◌*◌, ◌≤◌, ◌≡◌, arith}
use millionws.Base.Int.{from_parts, pos, ◌+ℤ◌}
use millionws.Loadgen.Registry.{Comparable, len}
use millionws.Loadgen.Registry.Valid.{IsValid, new_registry-IsValid}
use millionws.Loadgen.Dial.{per_tick, waiting, State, begin, loop, worker, Reach, here, step}
use millionws.Loadgen.Dial.Sound.{Checked-open, Begun-within, Sound}
use millionws.Loadgen.Dial.Moves.{Loop-Sound, Worker-Sound}

module _ (c : Comparable) where
  module _ (target inflight rate : ℕ) where
    begin-Sound : Sound c target inflight rate waiting (begin c)
    begin-Sound = record {
      valid = new_registry-IsValid c;
      slots = omega arith;
      few = omega arith;
      pending = omega arith;
      balance = omega arith;
      bound = omega arith;
      paced = omega arith;
    }

    Reach-Sound :
        {s : State c} → Reach c target inflight rate s → Sound c target inflight rate s.pc s
    Reach-Sound here = begin-Sound
    Reach-Sound (step r (loop m)) = Loop-Sound c target inflight rate m (Reach-Sound r)
    Reach-Sound (step r (worker m)) = Worker-Sound c target inflight rate m (Reach-Sound r)

    -- However the loop, the dials and the close handler interleave: the registry is valid; at most
    -- `inflight` dials hold a slot; the connections that are stored or being dialed are at
    -- most `target + inflight`; `active`, with the added connections that it does not count yet, is the
    -- number of the stored ones and of the removed ones that it still counts; and the loop has
    -- started at most `perTick` dials for each tick.
    pub Reach-bounds :
        {s : State c}
        → Reach c target inflight rate s
        → IsValid c s.reg
          × (s.dialing + s.added + s.settled ≤ inflight)
          × (len c s.reg + s.dialing ≤ target + inflight)
          × (s.active +ℤ pos s.added ≡ pos (len c s.reg + s.closers))
          × (s.next ≤ per_tick rate * s.ticks)
    Reach-bounds {s} r =
        let f = Reach-Sound r in
        (
          f.valid,
          omega arith,
          Checked-open c target inflight rate s.pc (len c s.reg + s.dialing) f.bound,
          from_parts s.active s.added (len c s.reg + s.closers) f.balance,
          Begun-within c target inflight rate s.pc s.next (per_tick rate * s.ticks) f.paced,
        )
