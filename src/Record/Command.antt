-- ===== src/Record/Command.antt =====
-- The two commands of record.py: `cmd_idle`, and `cmd_run` from the first sample to the files.
pub mod Cpu
pub mod Written
pub mod Ends
mod Tests
use millionws.Base.{ℕ, Option, List, [], ◌∷◌}
use millionws.Base.Text.{Text}
use millionws.Base.Result.{Result, Exception, ok, raised, ◌>>=◌}
use millionws.Record.Number.{Float}
use millionws.Record.Parse.{Series, prom_vector}
use millionws.Record.Sampler.{Host, Sample, Sampler, new_sampler, sample}
use millionws.Record.Loop.{Args, Clock, reason_text, Round, Ending, stopped, failed, running, run}
use millionws.Record.Summary.{Summary, write_summary}
use millionws.Record.Page.{page, idle_line}

module _ (f : Float) where
  -- What is written to idle.json, and the line that is printed. The first of the two samples only
  -- sets the CPU counter.
  unfoldable pub cmd_idle : Text → Host f → Host f → Result (Sample f × Text)
  cmd_idle cgroup first second = do
    sampler ← new_sampler f cgroup
    primed ← sample f first sampler
    s ← sample f second primed.1
    ok (s.0, idle_line f s.0)

  -- What the loop samples, on a host and with a clock for each round; a sample that raises is the last.
  unfoldable pub sample_all : Sampler f → List (Host f × Clock) → List (Round f)
  sample_all self [] = []
  sample_all self ((h, c) ∷ hosts) = elim (sample f h self) [
    | raised e ↦ (raised e, c) ∷ []
    | ok (s, next) ↦ (ok s, c) ∷ sample_all next hosts
  ]

  -- How a run ends: with the rows of samples.csv, summary.json and summary.md, or with an exception;
  -- or it is still in its loop when the hosts are over.
  pub data Finish : Type 0 where
    written : List (Sample f) → Summary f → List Text → Finish
    left : Exception → Finish
    looping : Finish

  abbrev pub write_files : List (Sample f) → Result (Summary f) → Finish
  write_files rows (ok s) = written rows s (page f s)
  write_files rows (raised e) = left e

  -- What comes behind the loop, with what Prometheus answers then.
  unfoldable pub finish : Args → Sample f → Option (List Series) → Ending f → Finish
  finish args idle answer (stopped rows reason) =
      write_files rows
        (write_summary f args idle rows (reason_text f reason) (prom_vector f answer))
  finish args idle answer (failed e) = left e
  finish args idle answer (running rows) = looping

  -- `idle` is what idle.json holds, `first` the host of the sample before the loop, and `start` the
  -- time behind it.
  unfoldable pub cmd_run :
      Args
      → Result (Sample f)
      → Text
      → Host f
      → ℕ
      → List (Host f × Clock)
      → Option (List Series)
      → Finish
  unfolding finish sample_all
  cmd_run args (raised e) cgroup first start hosts answer = left e
  cmd_run args (ok idle) cgroup first start hosts answer =
      elim (◌>>=◌ (new_sampler f cgroup) (sample f first)) [
        | raised e ↦ left e
        | ok (s, sampler) ↦ finish args idle answer (run f args start (sample_all sampler hosts))
      ]
