-- ===== src/Loadgen/Dial/Moves.antt =====
-- Each step of the loop, of a dial and of the close handler keeps the invariant.
use native.Mathlib.Nat.{mul-suc}
use millionws.Base.{ℕ, ◌+◌, ◌*◌, ◌≤◌, ◌≡◌, refl, subst, arith}
use millionws.Base.Int.{pos, pos_part, neg_part, +ℤ_parts, -ℤ_parts}
use millionws.Loadgen.Registry.{Comparable, len}
use millionws.Loadgen.Registry.Valid.{IsValid}
use millionws.Loadgen.Registry.Lifecycle.{adds, removes}
use millionws.Loadgen.Dial.{
  per_tick, Pc, State, Loop, tick, quit, all_started, load_active, enough, too_few, busy, acquire,
  mark, start, Worker, fail, store, refuse, count_up, release, unmark, close, close_unknown,
  count_down,
}
use millionws.Loadgen.Dial.Sound.{taken, counted, call-IsValid, Checked, Checked-mono, Begun, Sound}

module _ (c : Comparable) where
  module _ (target inflight rate : ℕ) where
    at_pc :
        (s : State c) {pc : Pc}
        → s.pc ≡ pc
        → Sound c target inflight rate s.pc s
        → Sound c target inflight rate pc s
    at_pc s e f = subst (λ p. Sound c target inflight rate p s) e f

    -- A step of the loop that takes nothing and starts nothing.
    moved :
        {pc pc' : Pc} {s : State c}
        → Sound c target inflight rate pc s
        → taken pc' ≡ taken pc
        → counted pc' ≡ counted pc
        → Checked c target inflight rate pc' (len c s.reg + s.dialing)
        → Begun c target inflight rate pc' s.next (per_tick rate * s.ticks)
        → Sound c target inflight rate pc' (record s { pc = pc' })
    moved {pc} {pc'} {s} f same_slot same_mark bound paced = record {
      valid = f.valid;
      slots = omega arith;
      few = f.few;
      pending = omega arith;
      balance = f.balance;
      bound = bound;
      paced = paced;
    }

    pub Loop-Sound :
        {s t : State c}
        → Loop c target inflight rate s t
        → Sound c target inflight rate s.pc s
        → Sound c target inflight rate t.pc t
    Loop-Sound {s} (tick e) f =
        let g = at_pc s e f in
        record {
          valid = g.valid;
          slots = g.slots;
          few = g.few;
          pending = g.pending;
          balance = g.balance;
          bound = g.bound;
          paced = (omega (arith, mul-suc (per_tick rate) s.ticks), omega arith);
        }
    Loop-Sound {s} (quit e) f = let g = at_pc s e f in moved g refl refl g.bound g.paced
    Loop-Sound {s} (all_started e h) f =
        let g = at_pc s e f in moved g refl refl g.bound (omega (arith, g.paced))
    Loop-Sound {s} (load_active e h) f =
        let g = at_pc s e f in moved g refl refl (g.bound, omega arith) (g.paced.0, h)
    Loop-Sound {s} (enough e h) f =
        let g = at_pc s e f in moved g refl refl g.bound.0 (omega (arith, g.paced))
    Loop-Sound {s} (too_few {i} {seen} e h) f =
        let g = at_pc s e f in
        moved g refl refl (omega (arith, g.bound, +ℤ_parts seen (pos s.pending))) g.paced
    Loop-Sound {s} (busy e h) f =
        let g = at_pc s e f in moved g refl refl (omega (arith, g.bound)) (omega (arith, g.paced))
    Loop-Sound {s} (acquire e h) f =
        let g = at_pc s e f in
        record {
          valid = g.valid;
          slots = omega arith;
          few = h;
          pending = g.pending;
          balance = g.balance;
          bound = g.bound;
          paced = g.paced;
        }
    Loop-Sound {s} (mark e) f =
        let g = at_pc s e f in
        record {
          valid = g.valid;
          slots = g.slots;
          few = g.few;
          pending = omega arith;
          balance = g.balance;
          bound = g.bound;
          paced = (omega (arith, g.paced), g.paced.1);
        }
    Loop-Sound {s} (start e) f =
        let g = at_pc s e f in
        record {
          valid = g.valid;
          slots = omega arith;
          few = g.few;
          pending = omega arith;
          balance = g.balance;
          bound = omega (arith, g.bound);
          paced = (g.paced.0, g.paced.1);
        }

    -- A step beside the loop, from `s` to a state with as many connections open or in progress, or fewer.
    beside :
        {s t : State c}
        → Sound c target inflight rate s.pc s
        → IsValid c t.reg
        → t.slots ≡ t.dialing + t.added + t.settled + taken s.pc
        → t.slots ≤ inflight
        → t.pending ≡ t.dialing + t.added + t.settled + t.released + counted s.pc
        → pos_part t.active + t.added ≡ len c t.reg + t.closers + neg_part t.active
        → len c t.reg + t.dialing ≤ len c s.reg + s.dialing
        → (t.next ≡ s.next) × (t.ticks ≡ s.ticks)
        → Sound c target inflight rate s.pc t
    beside {s} {t} f valid slots few pending balance fewer (same_next, same_ticks) = record {
      valid = valid;
      slots = slots;
      few = few;
      pending = pending;
      balance = balance;
      bound =
          Checked-mono c target inflight rate s.pc (len c s.reg + s.dialing)
            (len c t.reg + t.dialing) fewer f.bound;
      paced = rw (same_next, same_ticks) f.paced;
    }

    pub Worker-Sound :
        {s t : State c}
        → Worker c s t
        → Sound c target inflight rate s.pc s
        → Sound c target inflight rate t.pc t
    Worker-Sound {s} (fail e) f =
        beside f f.valid (omega arith) f.few (omega arith) f.balance (omega arith) (refl, refl)
    Worker-Sound {s} (store x e k) f =
        let (v, n) = call-IsValid c (adds x) s.reg k f.valid in
        beside f v (omega arith) f.few (omega arith) (omega (arith, n)) (omega (arith, n))
          (refl, refl)
    Worker-Sound {s} (refuse x e k) f =
        let (v, n) = call-IsValid c (adds x) s.reg k f.valid in
        beside f v (omega arith) f.few (omega arith) (omega (arith, n)) (omega (arith, n))
          (refl, refl)
    Worker-Sound {s} (count_up e) f =
        beside f f.valid (omega arith) f.few (omega arith)
          (omega (arith, +ℤ_parts s.active (pos 1))) (omega arith) (refl, refl)
    Worker-Sound {s} (release e) f =
        beside f f.valid (omega arith) (omega arith) (omega arith) f.balance (omega arith)
          (refl, refl)
    Worker-Sound {s} (unmark e) f =
        beside f f.valid f.slots f.few (omega arith) f.balance (omega arith) (refl, refl)
    Worker-Sound {s} (close x k) f =
        let (v, n) = call-IsValid c (removes x) s.reg k f.valid in
        beside f v f.slots f.few f.pending (omega (arith, n)) (omega (arith, n)) (refl, refl)
    Worker-Sound {s} (close_unknown x k) f =
        let (v, n) = call-IsValid c (removes x) s.reg k f.valid in
        beside f v f.slots f.few f.pending (omega (arith, n)) (omega (arith, n)) (refl, refl)
    Worker-Sound {s} (count_down e) f =
        beside f f.valid f.slots f.few f.pending (omega (arith, -ℤ_parts s.active (pos 1)))
          (omega arith) (refl, refl)
