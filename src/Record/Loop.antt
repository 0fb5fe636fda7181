-- ===== src/Record/Loop.antt =====
-- The loop of `cmd_run` in record.py: it takes samples until one of four reasons ends the run. A time
-- is `time.time()` in units of 2 ** -22 s, of which every such float is a whole number in these
-- years, so that the difference of two times is exact.
pub mod Stops
pub mod History
pub mod Decisions
pub mod Explained
pub mod Held
use millionws.Base.{
  ℕ, ◌≡◌, refl, ◌⊎◌, inl, inr, Bool, true, false, Option, none, some, List, [], ◌∷◌, ◌++◌,
  if◌then◌else◌,
}
use millionws.Base.Int.{ℤ, pos, ◌-ℤ◌, scale, leb_ℤ}
use millionws.Base.Text.Integer.{decimal_ℤ}
use millionws.Base.Text.{Text, codes, starts_with}
use millionws.Base.Result.{Result, ok, raised, Exception}
use millionws.Record.Number.{Float, truthy, or_zero, zero_of}
use millionws.Record.Sampler.{Sample}

-- The command line: `--hold`, `--plateau` and `--max` in seconds.
pub record Args : Type 0 where
  pub variant : Text
  pub hold : ℤ
  pub plateau : ℤ
  pub max : ℤ

abbrev pub ticks_per_second : ℕ
ticks_per_second = 4_194_304

-- `now - then >= seconds`
unfoldable pub has_passed : ℤ → ℕ → ℕ → Bool
unfolding scale ◌-ℤ◌
has_passed seconds from now = leb_ℤ (scale ticks_per_second seconds) (pos now -ℤ pos from)

-- What the calls of `time.time()` in one round of the loop read; a round makes some of them, in
-- this order.
pub record Clock : Type 0 where
  pub at_best : ℕ
  pub at_reached : ℕ
  pub at_hold : ℕ
  pub at_plateau : ℕ
  pub at_limit : ℕ

-- `reached_at or time.time()`; no time is zero.
abbrev pub or_now : Option ℕ → ℕ → ℕ
or_now none now = now
or_now (some t) now = t

module _ (f : Float) where
  pub data Reason : Type 0 where
    container_stopped : Text → Reason
    target_held : f.Carrier → ℤ → Reason
    no_growth : f.Carrier → ℤ → Reason
    time_limit : ℤ → Reason

  -- `reason` as it is reported.
  unfoldable pub reason_text : Reason → Text
  reason_text (container_stopped state) = codes "server container stopped (" ++ (state ++ codes ")")
  reason_text (target_held target hold) =
      codes "target of "
      ++ (f.fixed 0 target
          ++ (codes " connections reached and held for " ++ (decimal_ℤ hold ++ codes "s")))
  reason_text (no_growth best plateau) =
      codes "no growth above "
      ++ (f.fixed 0 best ++ (codes " connections for " ++ (decimal_ℤ plateau ++ codes "s")))
  reason_text (time_limit max) = codes "time limit of " ++ (decimal_ℤ max ++ codes "s reached")

  -- `best`, `best_at` and `reached_at`.
  pub record Progress : Type 0 where
    pub best : Option f.Carrier
    pub best_at : ℕ
    pub reached_at : Option ℕ

  abbrev pub begin : ℕ → Progress
  begin start = record { best = none; best_at = start; reached_at = none }

  pub data Decision : Type 0 where
    go_on : Progress → Decision
    stop : Reason → Decision

  -- `conns` of a sample
  abbrev pub conns_of : Sample f → f.Carrier
  conns_of s = or_zero f s.server_conns

  -- `best is None or conns > best * 1.005`
  abbrev pub is_growth : Option f.Carrier → f.Carrier → Bool
  is_growth none conns = true
  is_growth (some best) conns = f.lt (f.mul best (f.literal 1005 3)) conns

  unfoldable pub note_best : f.Carrier → ℕ → Progress → Progress
  note_best conns now p =
      if is_growth p.best conns then record p { best = some conns; best_at = now } else p

  -- `target and conns >= target`
  abbrev pub is_reached : Option f.Carrier → f.Carrier → Bool
  is_reached none conns = false
  is_reached (some target) conns = elim (truthy f target) [
    | true ↦ f.le target conns
    | false ↦ false
  ]

  abbrev pub or_none : Option f.Carrier → f.Carrier
  or_none none = zero_of f
  or_none (some x) = x

  -- The last two tests of a round.
  unfoldable pub check_time : Args → ℕ → Clock → Progress → Decision
  unfolding has_passed
  check_time args start c p =
      if has_passed args.plateau p.best_at c.at_plateau
      then stop (no_growth (or_none p.best) args.plateau)
      else if has_passed args.max start c.at_limit
      then stop (time_limit args.max)
      else go_on p

  -- The test of the target, and what comes behind it.
  unfoldable pub check_target : Args → ℕ → Sample f → Clock → Progress → Decision
  unfolding check_time
  check_target args start s c p =
      if is_reached s.loadgen_target (conns_of s)
      then (let since = or_now p.reached_at c.at_reached in
          if has_passed args.hold since c.at_hold
          then stop (target_held (or_none s.loadgen_target) args.hold)
          else check_time args start c (record p { reached_at = some since }))
      else check_time args start c p

  -- One round of the loop, from the sample on.
  unfoldable pub decide : Args → ℕ → Progress → Sample f → Clock → Decision
  unfolding note_best check_target
  decide args start p s c =
      let p' = note_best (conns_of s) c.at_best p in
      if starts_with s.state (codes "running")
      then check_target args start s c p'
      else stop (container_stopped s.state)

  pub Decision-cases :
      (d : Decision) → ((p : Progress) × (d ≡ go_on p)) ⊎ ((r : Reason) × (d ≡ stop r))
  Decision-cases (go_on p) = inl (p, refl)
  Decision-cases (stop r) = inr (r, refl)

  -- What `sampler.sample()` returns or raises in a round, with the clock of the round.
  abbrev pub Round : Type 0
  Round = Result (Sample f) × Clock

  pub data Ending : Type 0 where
    -- the rows so far, and the reason
    stopped : List (Sample f) → Reason → Ending
    failed : Exception → Ending
    -- the given rounds are over, and the loop goes on
    running : List (Sample f) → Ending

  unfoldable pub run_loop : Args → ℕ → Progress → List (Sample f) → List Round → Ending
  run_loop args start p rows [] = running rows
  run_loop args start p rows ((raised e, c) ∷ rounds) = failed e
  run_loop args start p rows ((ok s, c) ∷ rounds) = elim (decide args start p s c) [
    | stop reason ↦ stopped (rows ++ (s ∷ [])) reason
    | go_on p' ↦ run_loop args start p' (rows ++ (s ∷ [])) rounds
  ]

  -- The loop of `cmd_run` from its start at the time `start`.
  unfoldable pub run : Args → ℕ → List Round → Ending
  unfolding run_loop
  run args start rounds = run_loop args start (begin start) [] rounds
