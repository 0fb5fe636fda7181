-- ===== src/Loadgen/Tests.antt =====
-- Runs of the load generator's registry over numbers as connections, and the theorems at them.
use millionws.Base.{
  ℕ, ◌≤◌, ◌≡◌, refl, true, false, none, some, List, [], ◌∷◌, length, get_elem?, ◌==◌, ==_iff, arith,
}
use millionws.Loadgen.Echo.{latencies}
use millionws.Loadgen.Echo.Observed.{Trip, latencies_lem}
use millionws.Record.Number.Thousandths.{thousandths}
use millionws.Loadgen.Registry.{
  Comparable, Registry, new_registry, add, remove, take_out, set_elem?, take, batch, batch_from,
  len,
}
use millionws.Loadgen.Registry.Valid.{IsValid, new_registry-IsValid, stored, stored-IsValid}
use millionws.Loadgen.Registry.Lifecycle.{Call, adds, removes, unknown, call}
use millionws.Loadgen.Registry.Series.{call_all, Reached, call_all-new}
use millionws.Loadgen.Dial.{
  State, checking, Reach, here, step, loop, worker, tick, load_active, too_few, acquire, mark,
  start, store, count_up, release, unmark,
}
use millionws.Base.Int.{pos, ◌+ℤ◌}
use millionws.Loadgen.Dial.Bounds.{Reach-bounds}
use millionws.Loadgen.Registry.Rounds.{batch_all, batch_all-each}

abbrev numbers : Comparable
numbers = record { C = ℕ; eq = λ a b. a == b; eq_iff = ==_iff }

-- Connection 2 is closed before the dialer adds it; 1 goes while 3 and 4 are stored, and 4 takes its
-- place.
abbrev calls : List (Call numbers)
calls = removes 2 ∷ adds 1 ∷ adds 3 ∷ adds 2 ∷ adds 4 ∷ adds 3 ∷ removes 1 ∷ removes 1 ∷ []

calls_reported :
    (elim (call_all numbers calls (new_registry numbers)) [ none ↦ [] | some (r, bs) ↦ bs ])
    ≡ false ∷ true ∷ true ∷ false ∷ true ∷ false ∷ true ∷ false ∷ []
unfolding call_all call add remove take_out set_elem? take
calls_reported = refl

calls_stored :
    (elim (call_all numbers calls (new_registry numbers)) [ none ↦ [] | some (r, bs) ↦ r.conns ])
    ≡ 4 ∷ 3 ∷ []
unfolding call_all call add remove take_out set_elem? take
calls_stored = refl

call_all-new_example :
    (r : Registry numbers) × Reached numbers calls (λ x. unknown) (new_registry numbers) r
call_all-new_example = call_all-new numbers calls

abbrev three : Registry numbers
three = stored numbers 7 (stored numbers 6 (stored numbers 5 (new_registry numbers)))

three-IsValid : IsValid numbers three
three-IsValid =
    stored-IsValid numbers 7 (stored numbers 6 (stored numbers 5 (new_registry numbers))) refl refl
      (stored-IsValid numbers 6 (stored numbers 5 (new_registry numbers)) refl refl
        (stored-IsValid numbers 5 (new_registry numbers) refl refl (new_registry-IsValid numbers)))

wraps_around : batch numbers three 2 2 ≡ some (7 ∷ 5 ∷ [], 1)
unfolding batch batch_from
wraps_around = refl

batch_all-each_example :
    (xs : List ℕ) × (batch_all numbers three 2 (2 ∷ 1 ∷ []) ≡ some xs)
    × (length xs ≡ len numbers three)
    × ((x i : ℕ)
        → three.slot x ≡ some i
        → (j : ℕ) × (get_elem? xs j ≡ some x) × ((k : ℕ) → get_elem? xs k ≡ some x → k ≡ j))
batch_all-each_example =
    batch_all-each numbers three 2 (2 ∷ 1 ∷ []) three-IsValid (omega arith) (omega arith)

-- With a target of 1: the loop reads `active` before the first connection is counted there, and
-- `pending` when it is no longer pending. So it dials again, and two connections are open.
abbrev above_target : State numbers
above_target = record {
  pc = checking 2;
  reg = stored numbers 6 (stored numbers 5 (new_registry numbers));
  active = pos 1;
  pending = 1;
  slots = 1;
  next = 2;
  dialing = 0;
  added = 1;
  settled = 0;
  released = 0;
  closers = 0;
  ticks = 1;
}

reaches_above_target : Reach numbers 1 2 200 above_target
unfolding call add ◌+ℤ◌
reaches_above_target =
    let dialed =
      step
        (step
          (step
            (step (step (step here (loop (tick refl))) (loop (load_active refl (omega arith))))
              (loop (too_few refl (omega arith))))
            (loop (acquire refl (omega arith))))
          (loop (mark refl)))
        (loop (start refl)) in
    let stored_one = step dialed (worker (store 5 refl refl)) in
    let read_one = step stored_one (loop (load_active refl (omega arith))) in
    let ended =
      step (step (step read_one (worker (count_up refl))) (worker (release refl)))
        (worker (unmark refl)) in
    let again =
      step
        (step
          (step (step ended (loop (too_few refl (ground arith))))
            (loop (acquire refl (omega arith))))
          (loop (mark refl)))
        (loop (start refl)) in
    step again (worker (store 6 refl refl))

Reach-bounds_example :
    IsValid numbers above_target.reg × (1 ≤ 2) × (2 ≤ 3) × (pos 1 +ℤ pos 1 ≡ pos 2) × (2 ≤ 2)
Reach-bounds_example = Reach-bounds numbers 1 2 200 reaches_above_target

-- Two messages, the second sent behind the first echo.
abbrev two_trips : List Trip
two_trips =
    record { sent = 1_700_000_000_000_000_000; whole = 1; nanos = 250_000_000 }
    ∷ record { sent = 1_700_000_030_000_000_000; whole = 0; nanos = 1_000_000 }
    ∷ []

latencies_lem_example :
    latencies thousandths (pos 5) (
      (1_700_000_000_000_000_000, 1_700_000_001_250_000_000)
      ∷ (1_700_000_030_000_000_000, 1_700_000_030_001_000_000)
      ∷ [])
    ≡ some (thousandths.literal 125 2) ∷ some (thousandths.literal 1 3) ∷ []
unfolding thousandths
latencies_lem_example = latencies_lem thousandths (pos 5) two_trips (omega arith)
