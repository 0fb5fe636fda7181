-- ===== src/Compare/Labels.antt =====
-- The label that compare.py gives a run, for each reason with which record.py ends one.
use millionws.Base.{◌≡◌, refl, some, List, arith, if◌then◌else◌, last?}
use millionws.Base.Text.{Text, codes, starts_with}
use millionws.Base.Dict.{Dict}
use millionws.Base.Result.{ok}
use millionws.Record.Number.{Float}
use millionws.Record.Sampler.{Sample}
use millionws.Record.Loop.{
  Args, Reason, container_stopped, target_held, no_growth, time_limit, reason_text,
}
use millionws.Record.Summary.{Summary, write_summary, is_oom_killed}
use millionws.Compare.{stop_label}

module _ (f : Float) where
  -- What the table says of a run that was not killed for memory.
  abbrev pub label_of : Reason f → Text
  label_of (no_growth best plateau) = codes "stopped growing, server still up"
  label_of (container_stopped state) = reason_text f (container_stopped state)
  label_of (target_held target hold) = reason_text f (target_held target hold)
  label_of (time_limit max) = reason_text f (time_limit max)

  label_of-reason_text :
      (r : Reason f)
      → (if starts_with (reason_text f r) (codes "no growth")
          then codes "stopped growing, server still up"
          else reason_text f r)
        ≡ label_of r
  unfolding reason_text starts_with
  label_of-reason_text (no_growth best plateau) = refl
  label_of-reason_text (container_stopped state) = refl
  label_of-reason_text (target_held target hold) = refl
  label_of-reason_text (time_limit max) = refl

  write_summary-fields :
      (args : Args) (idle : Sample f) (rows : List (Sample f)) (last : Sample f) (reason : Text)
      (errors : List (Dict Text × f.Carrier)) {s : Summary f}
      → last? rows ≡ some last
      → write_summary f args idle rows reason errors ≡ ok s
      → (s.stop_reason ≡ reason) × (s.oom_killed ≡ is_oom_killed last.state)
  unfolding write_summary
  write_summary-fields args idle rows last reason errors e h = ground arith

  -- Of the summary that `write_summary` makes of a run, `stop_label` says "OOM kill" if the last state
  -- has the word true, else "stopped growing, server still up" just if the run ended for want of
  -- growth, and else the reason as `cmd_run` gave it.
  pub stop_label-write_summary :
      (args : Args) (idle : Sample f) (rows : List (Sample f)) (last : Sample f) (r : Reason f)
      (errors : List (Dict Text × f.Carrier)) {s : Summary f}
      → last? rows ≡ some last
      → write_summary f args idle rows (reason_text f r) errors ≡ ok s
      → stop_label f s ≡ (if is_oom_killed last.state then codes "OOM kill" else label_of r)
  unfolding stop_label
  stop_label-write_summary args idle rows last r errors e h =
      let (why, killed) = write_summary-fields args idle rows last (reason_text f r) errors e h in
      rw (why, killed, label_of-reason_text r) refl
