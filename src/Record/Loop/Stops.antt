-- ===== src/Record/Loop/Stops.antt =====
-- The time limit of record.py's loop, for rounds that take the time of their sleep.
use millionws.Base.{
  ℕ, suc, ◌+◌, ◌*◌, ◌≤◌, ◌<◌, ◌≡◌, refl, Bool, true, false, List, [], ◌∷◌, ◌++◌, length, All, arith,
  inl, inr,
}
use millionws.Base.Int.{pos}
use millionws.Base.Result.{ok, raised, is_raised}
use millionws.Record.Number.{Float}
use millionws.Record.Sampler.{Sample}
use millionws.Record.Loop.{
  Args, Clock, ticks_per_second, has_passed, Progress, go_on, Round, Decision-cases, Ending,
  stopped, failed, running, decide, run_loop, run, begin,
}

module _ (f : Float) where
  abbrev pub is_stopped : Ending f → Bool
  is_stopped (stopped rows reason) = true
  is_stopped (failed e) = false
  is_stopped (running rows) = false

  -- The clock of `time.sleep(STEP)`: the round `k`, from 0, ends 2 * (k + 1) seconds or more behind
  -- the start.
  abbrev pub Paced : ℕ → ℕ → List (Round f) → Type 0
  Paced start k [] = Unit
  Paced start k ((r, c) ∷ rounds) =
      (start + ticks_per_second * (2 * suc k) ≤ c.at_limit) × Paced start (suc k) rounds

  pub goes_on_below_limit :
      (args : Args) (start : ℕ) (p : Progress f) (s : Sample f) (c : Clock) {p' : Progress f}
      → decide f args start p s c ≡ go_on p'
      → has_passed args.max start c.at_limit ≡ false
  unfolding decide
  goes_on_below_limit args start p s c h = ground arith

  pub not-passed :
      (m start k now : ℕ)
      → has_passed (pos m) start now ≡ false
      → start + ticks_per_second * (2 * suc k) ≤ now
      → 2 * suc k < m
  unfolding has_passed
  not-passed m start k now h late = ground arith

  run_loop_stops :
      (args : Args) (start m k : ℕ) (p : Progress f) (rows : List (Sample f))
      (rounds : List (Round f))
      → args.max ≡ pos m
      → All (λ (r, _). is_raised r ≡ false) rounds
      → Paced start k rounds
      → 0 < length rounds
      → m ≤ 2 * (k + length rounds)
      → is_stopped (run_loop f args start p rows rounds) ≡ true
  unfolding run_loop
  run_loop_stops args start m k p rows [] max fine paced some_left enough = absurd (omega arith)
  run_loop_stops args start m k p rows ((raised e, c) ∷ rounds) max fine paced some_left enough = cc
  run_loop_stops args start m k p rows ((ok s, c) ∷ rounds) max fine paced some_left enough =
      elim (Decision-cases f (decide f args start p s c)) [
        | inr (r, e) ↦ rw (e, run_loop) refl
        | inl (p', e) ↦
            let below : 2 * suc k < m =
              not-passed m start k c.at_limit (rw max at (goes_on_below_limit args start p s c e))
                paced.0 in
            rw (e, run_loop)
              (run_loop_stops args start m (suc k) p' (rows ++ (s ∷ [])) rounds max fine.1 paced.1
                (omega arith) (omega arith))
      ]

  -- If `max` is not negative, no sample raises, and each round takes the two seconds of its sleep, a
  -- run ends within max / 2 rounds: after any number of rounds that is not zero and is at least that,
  -- the loop has stopped with a reason.
  pub run_stops :
      (args : Args) (start m : ℕ) (rounds : List (Round f))
      → args.max ≡ pos m
      → All (λ (r, _). is_raised r ≡ false) rounds
      → Paced start 0 rounds
      → 0 < length rounds
      → m ≤ 2 * length rounds
      → is_stopped (run f args start rounds) ≡ true
  unfolding run
  run_stops args start m rounds max fine paced some_left enough =
      run_loop_stops args start m 0 (begin f start) [] rounds max fine paced some_left (omega arith)
