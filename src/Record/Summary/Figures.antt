-- ===== src/Record/Summary/Figures.antt =====
-- The figures of record.py's summary that are taken at the peak.
use millionws.Base.{◌≡◌, ◌≢◌, subst, List, [], All, arith}
use millionws.Base.Text.{Text}
use millionws.Base.Dict.{Dict}
use millionws.Base.Result.{Result, ok}
use millionws.Record.Number.{Float, IsFloat}
use millionws.Record.Sampler.{Sample}
use millionws.Record.Loop.{Args, conns_of}
use millionws.Record.Loop.History.{IsCount}
use millionws.Record.Summary.{Summary, choose_peak, bytes_per_connection, write_summary}
use millionws.Record.Summary.Peak.{live_of, IsPeak, choose_peak-IsPeak}

same_ok : {A : Type 0} (r : Result A) (a b : A) → r ≡ ok a → r ≡ ok b → a ≡ b
same_ok r a b h k = cc

module _ (f : Float) where
  -- The number of connections and the bytes for each of them are those of one sample.
  abbrev pub IsTakenAt : Sample f → Sample f → Summary f → Type 0
  IsTakenAt idle peak s =
      (f.truncate (conns_of f peak) ≡ ok s.peak_connections)
      × (bytes_per_connection f peak idle (conns_of f peak) ≡ ok s.bytes_per_connection)

  write_summary-IsTakenAt :
      (args : Args) (idle : Sample f) (rows : List (Sample f)) (reason : Text)
      (errors : List (Dict Text × f.Carrier)) {s : Summary f}
      → write_summary f args idle rows reason errors ≡ ok s
      → (choose_peak f rows ≡ ok s.at_peak) × IsTakenAt idle s.at_peak s
  unfolding write_summary
  write_summary-IsTakenAt args idle rows reason errors h = ground arith

  pub write_summary-IsPeak :
      IsFloat f
      → (args : Args) (idle : Sample f) (rows : List (Sample f)) (reason : Text)
        (errors : List (Dict Text × f.Carrier)) {s : Summary f}
      → All (IsCount f) rows
      → live_of f rows ≢ []
      → write_summary f args idle rows reason errors ≡ ok s
      → IsPeak f (live_of f rows) s.at_peak × IsTakenAt idle s.at_peak s
  write_summary-IsPeak laws args idle rows reason errors {s} counts some_live h =
      let (chosen, taken) = write_summary-IsTakenAt args idle rows reason errors h in
      let (peak, e, p) = choose_peak-IsPeak f laws rows counts some_live in
      (
        subst (IsPeak f (live_of f rows)) (same_ok (choose_peak f rows) peak s.at_peak e chosen) p,
        taken,
      )
