-- ===== src/Record/Command/Ends.antt =====
-- The time limit of record.py's `cmd_run`, whatever its samples read and raise.
use millionws.Base.{
  ℕ, suc, ◌+◌, ◌*◌, ◌≤◌, ◌<◌, ◌≡◌, refl, ap, Bool, true, false, Option, List, [], ◌∷◌, ◌++◌, length,
  arith, inl, inr,
}
use millionws.Base.Int.{pos}
use millionws.Base.Text.{Text}
use millionws.Base.Result.{Result, Result-cases, ok, raised, ◌>>=◌}
use millionws.Record.Number.{Float}
use millionws.Record.Parse.{Series, prom_vector}
use millionws.Record.Sampler.{Host, Sample, Sampler, new_sampler, sample}
use millionws.Record.Loop.{
  Args, Clock, ticks_per_second, Progress, Decision-cases, Ending, stopped, failed, running, decide,
  run_loop, run, begin, reason_text,
}
use millionws.Record.Loop.Stops.{goes_on_below_limit, not-passed}
use millionws.Record.Summary.{write_summary}
use millionws.Record.Command.{sample_all, Finish, written, left, looping, finish, cmd_run}

module _ (f : Float) where
  abbrev is_running : Ending f → Bool
  is_running (stopped rows reason) = false
  is_running (failed e) = false
  is_running (running rows) = true

  abbrev pub is_looping : Finish f → Bool
  is_looping (written rows s lines) = false
  is_looping (left e) = false
  is_looping looping = true

  -- The round `k`, from 0, ends 2 * (k + 1) seconds or more behind the start.
  abbrev pub PacedHosts : ℕ → ℕ → List (Host f × Clock) → Type 0
  PacedHosts start k [] = Unit
  PacedHosts start k ((h, c) ∷ hosts) =
      (start + ticks_per_second * (2 * suc k) ≤ c.at_limit) × PacedHosts start (suc k) hosts

  loop_ends :
      (args : Args) (start m k : ℕ) (p : Progress f) (rows : List (Sample f)) (self : Sampler f)
      (hosts : List (Host f × Clock))
      → args.max ≡ pos m
      → PacedHosts start k hosts
      → 0 < length hosts
      → m ≤ 2 * (k + length hosts)
      → is_running (run_loop f args start p rows (sample_all f self hosts)) ≡ false
  unfolding run_loop sample_all
  loop_ends args start m k p rows self [] max paced some_left enough = absurd (omega arith)
  loop_ends args start m k p rows self ((h, c) ∷ hosts) max paced some_left enough =
      elim (Result-cases (sample f h self)) [
        | inr (x, failure) ↦ rw (sample_all, failure, run_loop) refl
        | inl ((s, next), sampled) ↦ elim (Decision-cases f (decide f args start p s c)) [
          | inr (r, e) ↦ rw (sample_all, sampled, run_loop, e) refl
          | inl (p', e) ↦
              let below : 2 * suc k < m =
                not-passed f m start k c.at_limit
                  (rw max at (goes_on_below_limit f args start p s c e)) paced.0 in
              rw (sample_all, sampled, run_loop, e)
                (loop_ends args start m (suc k) p' (rows ++ (s ∷ [])) next hosts max paced.1
                  (omega arith) (omega arith))
        ]
      ]

  -- A loop that has ended takes no further round.
  loop_ended :
      (args : Args) (start : ℕ) (p : Progress f) (rows : List (Sample f)) (self : Sampler f)
      (hosts more : List (Host f × Clock))
      → is_running (run_loop f args start p rows (sample_all f self hosts)) ≡ false
      → run_loop f args start p rows (sample_all f self (hosts ++ more))
        ≡ run_loop f args start p rows (sample_all f self hosts)
  unfolding run_loop sample_all
  loop_ended args start p rows self [] more ended = absurd (cc)
  loop_ended args start p rows self ((h, c) ∷ hosts) more ended =
      elim (Result-cases (sample f h self)) [
        | inr (x, failure) ↦ rw (sample_all, failure) refl
        | inl ((s, next), sampled) ↦ elim (Decision-cases f (decide f args start p s c)) [
          | inr (r, e) ↦ rw (sample_all, sampled, run_loop, e) refl
          | inl (p', e) ↦
              rw (sample_all, sampled, run_loop, e)
                (loop_ended args start p' (rows ++ (s ∷ [])) next hosts more
                  (rw (sample_all, sampled, run_loop, e) at ended))
        ]
      ]

  finish-ends :
      (args : Args) (idle : Sample f) (answer : Option (List Series)) (e : Ending f)
      → is_running e ≡ false
      → is_looping (finish f args idle answer e) ≡ false
  unfolding finish
  finish-ends args idle answer (stopped rows reason) h =
      elim (Result-cases
        (write_summary f args idle rows (reason_text f reason) (prom_vector f answer))) [
          | inl (s, made) ↦ rw made refl
          | inr (x, failure) ↦ rw failure refl
        ]
  finish-ends args idle answer (failed x) h = refl
  finish-ends args idle answer (running rows) h = cc

  -- If `max` is not negative and each round takes the two seconds of its sleep, then after any number
  -- of rounds that is not zero and is at least max / 2, `cmd_run` has written its files or raised, and
  -- it is the same with any further rounds: none of them is taken.
  pub cmd_run-ends :
      (args : Args) (idle : Result (Sample f)) (cgroup : Text) (first : Host f) (start m : ℕ)
      (hosts more : List (Host f × Clock)) (answer : Option (List Series))
      → args.max ≡ pos m
      → PacedHosts start 0 hosts
      → 0 < length hosts
      → m ≤ 2 * length hosts
      → (is_looping (cmd_run f args idle cgroup first start hosts answer) ≡ false)
        × (cmd_run f args idle cgroup first start (hosts ++ more) answer
            ≡ cmd_run f args idle cgroup first start hosts answer)
  unfolding cmd_run run
  cmd_run-ends args (raised x) cgroup first start m hosts more answer max paced some_left enough =
      (refl, refl)
  cmd_run-ends args (ok idle) cgroup first start m hosts more answer max paced some_left enough =
      elim (Result-cases (◌>>=◌ (new_sampler f cgroup) (sample f first))) [
        | inr (x, failure) ↦ (rw (cmd_run, failure) refl, rw (cmd_run, failure) refl)
        | inl ((s, sampler), primed) ↦
            let ends =
              loop_ends args start m 0 (begin f start) [] sampler hosts max paced some_left
                (omega arith) in
            (
              rw (cmd_run, primed)
                  (finish-ends args idle answer (run f args start (sample_all f sampler hosts))
                    ends),
              rw (cmd_run, primed)
                  (ap (finish f args idle answer)
                    (loop_ended args start (begin f start) [] sampler hosts more ends)),
            )
      ]
