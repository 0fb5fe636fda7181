-- ===== src/Record/Loop/Held.antt =====
-- The time at which record.py's loop says that the target was reached.
use millionws.Base.{ℕ, ◌≡◌, some, List, [], ◌∷◌, arith}
use millionws.Record.Number.{Float}
use millionws.Record.Sampler.{Sample}
use millionws.Record.Loop.{
  Args, Clock, Progress, go_on, note_best, check_time, check_target, decide,
}

module _ (f : Float) where
  -- The state of the loop after some rounds, if none of them stops it.
  unfoldable pub Follows : Args → ℕ → Progress f → List (Sample f × Clock) → Progress f → Type 0
  Follows args start p [] q = p ≡ q
  Follows args start p ((s, c) ∷ turns) q =
      (p' : Progress f) × (decide f args start p s c ≡ go_on p') × Follows args start p' turns q

  decide-reached :
      (args : Args) (start : ℕ) (p p' : Progress f) (s : Sample f) (c : Clock) {t : ℕ}
      → p.reached_at ≡ some t
      → decide f args start p s c ≡ go_on p'
      → p'.reached_at ≡ some t
  unfolding decide check_target check_time note_best
  decide-reached args start p p' s c met h = ground arith

  -- As long as the loop goes on, a time that `reached_at` holds stays in it, whatever the rounds
  -- sample.
  pub reached_once :
      (args : Args) (start : ℕ) (turns : List (Sample f × Clock)) (p q : Progress f) {t : ℕ}
      → p.reached_at ≡ some t
      → Follows args start p turns q
      → q.reached_at ≡ some t
  unfolding Follows
  reached_once args start [] p q met h = cc
  reached_once args start ((s, c) ∷ turns) p q met (p', h, after) =
      reached_once args start turns p' q (decide-reached args start p p' s c met h) after
