-- ===== src/Record/Loop/Explained.antt =====
-- Why a run of record.py's loop ended: each reason that `cmd_run` gives, in terms of the rounds.
use millionws.Base.{ℕ, ◌≡◌, refl, sym, subst, inl, inr, List, [], ◌∷◌, ◌++◌}
use millionws.Base.Result.{ok, raised}
use millionws.Record.Number.{Float, IsFloat}
use millionws.Record.Sampler.{Sample}
use millionws.Record.Loop.{
  Args, Progress, Reason, Decision-cases, decide, Round, Ending, stopped, run_loop, run, begin,
}
use millionws.Record.Loop.History.{Turn, IsCount, Invariant}
use millionws.Record.Loop.Decisions.{Explains, decide-Sound}

module _ (f : Float) where
  -- The rounds of a history, before those that are left; and its samples, the first one first.
  abbrev pub rounds_of : List (Turn f) → List (Round f) → List (Round f)
  rounds_of [] rest = rest
  rounds_of ((s, c) ∷ hs) rest = rounds_of hs ((ok s, c) ∷ rest)

  abbrev pub samples_of : List (Turn f) → List (Sample f)
  samples_of [] = []
  samples_of ((s, c) ∷ hs) = samples_of hs ++ (s ∷ [])

  abbrev pub CountRounds : List (Round f) → Type 0
  CountRounds [] = Unit
  CountRounds ((raised e, c) ∷ rounds) = CountRounds rounds
  CountRounds ((ok s, c) ∷ rounds) = IsCount f s × CountRounds rounds

  -- The rounds that a stopped run has taken, the last one first, with what is left of the rounds.
  abbrev pub Taken : Args → ℕ → List (Round f) → List (Sample f) → Reason f → Type 0
  Taken args start rounds rows reason =
      (hs : List (Turn f)) × (rest : List (Round f)) × (rounds ≡ rounds_of hs rest)
      × (rows ≡ samples_of hs)
      × Explains f args start hs reason

  stopped-injective :
      (rows rows' : List (Sample f)) (r r' : Reason f)
      → ◌≡◌ {A = Ending f} (stopped rows r) (stopped rows' r')
      → (rows ≡ rows') × (r ≡ r')
  stopped-injective rows rows' r r' h = (cc, cc)

  run_loop_explained :
      IsFloat f
      → (args : Args) (start : ℕ) (hs : List (Turn f)) (p : Progress f) (rounds : List (Round f))
        {rows : List (Sample f)} {reason : Reason f}
      → Invariant f hs p
      → CountRounds rounds
      → run_loop f args start p (samples_of hs) rounds ≡ stopped rows reason
      → Taken args start (rounds_of hs rounds) rows reason
  unfolding run_loop
  run_loop_explained laws args start hs p [] i n h = cc
  run_loop_explained laws args start hs p ((raised e, c) ∷ rounds) i n h = cc
  run_loop_explained laws args start hs p ((ok s, c) ∷ rounds) {rows} {reason} i n h =
      let sound = decide-Sound f args start s c hs laws p i n.0 in
      elim (Decision-cases f (decide f args start p s c)) [
        | inl (p', e) ↦
            run_loop_explained laws args start ((s, c) ∷ hs) p' rounds (rw e at sound) n.1
              (rw (e, run_loop) at h)
        | inr (r, e) ↦
            let (same_rows, same_reason) =
              stopped-injective (samples_of ((s, c) ∷ hs)) rows r reason (rw (e, run_loop) at h) in
            (
              (s, c) ∷ hs,
              rounds,
              refl,
              sym same_rows,
              subst (Explains f args start ((s, c) ∷ hs)) same_reason (rw e at sound),
            )
      ]

  -- Where the connection counts are numbers that are not negative, a run that stops has taken its
  -- rows from the first rounds, and its reason is true of them. The state of the last sample
  -- does not start with "running"; or the last sample meets the target, and a round that met it, the
  -- same or an earlier one, is `hold` seconds back or more; or `best` is the count of a round
  -- at least `plateau` seconds back and no sample of the run exceeds 1.005 times it;
  -- or `max` seconds have passed since the start.
  pub run_explained :
      IsFloat f
      → (args : Args) (start : ℕ) (rounds : List (Round f)) {rows : List (Sample f)}
        {reason : Reason f}
      → CountRounds rounds
      → run f args start rounds ≡ stopped rows reason
      → Taken args start rounds rows reason
  unfolding run
  run_explained laws args start rounds n h =
      run_loop_explained laws args start [] (begin f start) rounds (inl (refl, refl), inl refl) n h
