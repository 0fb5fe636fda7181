-- ===== src/Record/Command/Written.antt =====
-- What record.py's `cmd_run` writes: the summary and the page, against the loop's rounds.
use millionws.Base.{
  ℕ, ◌≡◌, ◌≢◌, sym, ap, subst, ◌∙◌, true, Option, List, [], ◌∷◌, ◌++◌, All, arith, inl, inr,
}
use millionws.Base.Text.{Text, codes}
use millionws.Base.Dict.{Dict}
use millionws.Base.Result.{Exception, Result-cases, ok, ◌>>=◌}
use millionws.Record.Number.{Float, IsFloat, zero_of, or_zero}
use millionws.Record.Parse.{Series, prom_vector, scrape_server}
use millionws.Record.Sampler.{Host, Sample, Sampler, new_sampler, sample, field}
use millionws.Record.Loop.{
  Args, Clock, Reason, reason_text, Round, Ending, stopped, failed, running, run,
}
use millionws.Record.Loop.History.{Turn, IsCount}
use millionws.Record.Loop.Explained.{CountRounds, rounds_of, samples_of, Taken, run_explained}
use millionws.Record.Summary.{Summary, write_summary}
use millionws.Record.Summary.Peak.{live_of, IsPeak}
use millionws.Record.Summary.Figures.{IsTakenAt, write_summary-IsPeak}
use millionws.Record.Page.{page}
use millionws.Record.Command.{sample_all, Finish, written, left, finish, cmd_run}
use millionws.Record.Command.Cpu.{sample-conns}

module _ (f : Float) where
  -- The count of the host's /metrics page, or 0 where it has none, is a number and not negative.
  abbrev pub HasCount : Host f × Clock → Type 0
  HasCount (h, c) =
      f.le (zero_of f) (or_zero f (field f (codes "server_conns") (scrape_server f h.metrics_page)))
      ≡ true

  sample_all-CountRounds :
      (self : Sampler f) (hosts : List (Host f × Clock))
      → All HasCount hosts
      → CountRounds f (sample_all f self hosts)
  unfolding sample_all
  sample_all-CountRounds self [] n = tt
  sample_all-CountRounds self ((h, c) ∷ hosts) n = elim (Result-cases (sample f h self)) [
    | inr (e, failure) ↦ rw (sample_all, failure) tt
    | inl ((s, next), sampled) ↦
        rw (sample_all, sampled)
          (
            subst (λ o. f.le (zero_of f) (or_zero f o) ≡ true) (sym (sample-conns f h self sampled))
                n.0,
            sample_all-CountRounds next hosts n.1,
          )
  ]

  All-last :
      (P : Sample f → Type 0) (rows : List (Sample f)) (s : Sample f)
      → All P rows
      → P s
      → All P (rows ++ (s ∷ []))
  All-last P [] s h p = (p, tt)
  All-last P (r ∷ rows) s h p = (h.0, All-last P rows s h.1 p)

  samples_of-IsCount :
      (hs : List (Turn f)) (rest : List (Round f))
      → CountRounds f (rounds_of f hs rest)
      → All (IsCount f) (samples_of f hs) × CountRounds f rest
  samples_of-IsCount [] rest n = (tt, n)
  samples_of-IsCount ((s, c) ∷ hs) rest n =
      let (rows, last) = samples_of-IsCount hs ((ok s, c) ∷ rest) n in
      (All-last (IsCount f) (samples_of f hs) s rows last.0, last.1)

  write_summary-reason :
      (args : Args) (idle : Sample f) (rows : List (Sample f)) (reason : Text)
      (errors : List (Dict Text × f.Carrier)) {s : Summary f}
      → write_summary f args idle rows reason errors ≡ ok s
      → s.stop_reason ≡ reason
  unfolding write_summary
  write_summary-reason args idle rows reason errors h = ground arith

  written-injective :
      {rows rows' : List (Sample f)} {s s' : Summary f} {lines lines' : List Text}
      → ◌≡◌ {A = Finish f} (written rows s lines) (written rows' s' lines')
      → (rows ≡ rows') × (s ≡ s') × (lines ≡ lines')
  written-injective h = (cc, cc, cc)

  left-ne-written :
      (x : Exception) (rows : List (Sample f)) (s : Summary f) (lines : List Text)
      → ◌≢◌ {A = Finish f} (left x) (written rows s lines)
  left-ne-written x rows s lines h = cc

  -- What the summary of a run says of it.
  pub record Reports (args : Args) (start : ℕ) (idle : Sample f) (rows : List (Sample f))
      (s : Summary f) (rounds : List (Round f)) : Type 0 where
    pub reason : Reason f
    pub explained : Taken f args start rounds rows reason
    pub stated : s.stop_reason ≡ reason_text f reason
    pub peak : IsPeak f (live_of f rows) s.at_peak
    pub figures : IsTakenAt f idle s.at_peak s

  finish-written :
      (args : Args) (idle : Sample f) (answer : Option (List Series)) (e : Ending f)
      {rows : List (Sample f)} {s : Summary f} {lines : List Text}
      → finish f args idle answer e ≡ written rows s lines
      → (reason : Reason f) × (e ≡ stopped rows reason)
        × (write_summary f args idle rows (reason_text f reason) (prom_vector f answer) ≡ ok s)
        × (lines ≡ page f s)
  unfolding finish
  finish-written args idle answer (failed x) h = cc
  finish-written args idle answer (running taken) h = cc
  finish-written args idle answer (stopped taken reason) {rows} {s} {lines} h =
      elim (Result-cases
        (write_summary f args idle taken (reason_text f reason) (prom_vector f answer))) [
          | inr (x, failure) ↦ absurd (left-ne-written x rows s lines (rw failure at h))
          | inl (t, made) ↦
              let (same_rows, same, shown) = written-injective (rw made at h) in
              (
                reason,
                ap (λ l. stopped l reason) same_rows,
                subst
                    (λ l.
                      write_summary f args idle l (reason_text f reason) (prom_vector f answer)
                      ≡ ok s)
                    same_rows (made ∙ ap ok same),
                sym shown ∙ ap (page f) same,
              )
        ]

  reports :
      IsFloat f
      → (args : Args) (start : ℕ) (idle : Sample f) (rounds : List (Round f))
        (errors : List (Dict Text × f.Carrier)) {rows : List (Sample f)} {reason : Reason f}
        {s : Summary f}
      → CountRounds f rounds
      → live_of f rows ≢ []
      → run f args start rounds ≡ stopped rows reason
      → write_summary f args idle rows (reason_text f reason) errors ≡ ok s
      → Reports args start idle rows s rounds
  reports laws args start idle rounds errors {rows} {reason} counts some_live stop made =
      let explained = run_explained f laws args start rounds counts stop in
      let (hs, rest, taken, same, why) = explained in
      let row_counts =
        subst (All (IsCount f)) (sym same)
          (samples_of-IsCount hs rest (subst (CountRounds f) taken counts)).0 in
      let (peak, figures) =
        write_summary-IsPeak f laws args idle rows (reason_text f reason) errors row_counts
          some_live made in
      record {
        reason = reason;
        explained = explained;
        stated = write_summary-reason args idle rows (reason_text f reason) errors made;
        peak = peak;
        figures = figures;
      }

  -- Of a run that comes to write its files, where each metrics page has a count that is a number and
  -- not negative, and some row has a cgroup and a count of the server that is not 0: the first sample has primed the
  -- sampler of the rounds; the rows of samples.csv are those of the first rounds; the reason in the
  -- summary is that of the loop, and is true of the rows; the peak of the summary is, of the
  -- rows with a cgroup and a count of the server that is not 0, the last whose count is at least
  -- 0.995 times the most of them, and the connections and their bytes are of it; and summary.md
  -- is the page of the same summary.
  pub cmd_run-Reports :
      IsFloat f
      → (args : Args) (idle : Sample f) (cgroup : Text) (first : Host f) (start : ℕ)
        (hosts : List (Host f × Clock)) (answer : Option (List Series)) {rows : List (Sample f)}
        {s : Summary f} {lines : List Text}
      → All HasCount hosts
      → live_of f rows ≢ []
      → cmd_run f args (ok idle) cgroup first start hosts answer ≡ written rows s lines
      → (primed : Sample f × Sampler f) × (◌>>=◌ (new_sampler f cgroup) (sample f first)
          ≡ ok primed)
        × Reports args start idle rows s (sample_all f primed.1 hosts)
        × (lines ≡ page f s)
  unfolding cmd_run
  cmd_run-Reports laws args idle cgroup first start hosts answer {rows} {s} {lines} n some_live h =
      elim (Result-cases (◌>>=◌ (new_sampler f cgroup) (sample f first))) [
        | inr (x, failure) ↦ absurd (left-ne-written x rows s lines (rw (failure, cmd_run) at h))
        | inl ((s0, sampler), primed) ↦
            let rounds = sample_all f sampler hosts in
            let (reason, stop, made, shown) =
              finish-written args idle answer (run f args start rounds)
                (rw (primed, cmd_run) at h) in
            let counts = sample_all-CountRounds sampler hosts n in
            (
              (s0, sampler),
              primed,
              reports laws args start idle rounds (prom_vector f answer) counts some_live stop made,
              shown,
            )
      ]
