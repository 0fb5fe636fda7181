-- ===== src/Record/Loop/Decisions.antt =====
-- One round of record.py's loop, against the rounds so far: what a reason to stop says of them, and
-- what the variables say of them.
use millionws.Base.{
  ℕ, ◌≡◌, refl, subst, ◌⊎◌, inl, inr, true, false, Option, some, List, [], ◌∷◌, All, Any, arith,
  Bool-cases,
}
use millionws.Base.Int.{ℤ}
use millionws.Base.Text.{codes, starts_with}
use millionws.Record.Number.{Float, IsFloat}
use millionws.Record.Sampler.{Sample}
use millionws.Record.Loop.{
  Args, Clock, has_passed, Progress, Reason, container_stopped, target_held, no_growth, time_limit,
  Decision, go_on, stop, conns_of, note_best, is_reached, or_now, or_none, check_time, check_target,
  decide,
}
use millionws.Record.Loop.History.{
  Turn, IsCount, IsWithin, Best, note_best-Best, IsMet, ReachedSoFar, Invariant,
}

module _ (f : Float) where
  -- What each reason says of the rounds, the last one first.
  abbrev pub Explains : Args → ℕ → List (Turn f) → Reason f → Type 0
  Explains args start [] reason = ⊥
  Explains args start ((s, c) ∷ hs) (container_stopped state) =
      (state ≡ s.state) × (starts_with s.state (codes "running") ≡ false)
  Explains args start ((s, c) ∷ hs) (target_held target hold) =
      (hold ≡ args.hold)
      × (s.loadgen_target ≡ some target)
      × IsMet f (s, c)
      × Any (λ (s', c'). IsMet f (s', c') × (has_passed hold c'.at_reached c.at_hold ≡ true))
          ((s, c) ∷ hs)
  Explains args start ((s, c) ∷ hs) (no_growth best plateau) =
      (plateau ≡ args.plateau)
      × Any
          (λ (s', c'). (conns_of f s' ≡ best) × (has_passed plateau c'.at_best c.at_plateau ≡ true))
          ((s, c) ∷ hs)
      × All (IsWithin f best) ((s, c) ∷ hs)
  Explains args start ((s, c) ∷ hs) (time_limit max) =
      (max ≡ args.max) × (has_passed max start c.at_limit ≡ true)

  note_best-reached_at :
      (x : f.Carrier) (now : ℕ) (p : Progress f) → (note_best f x now p).reached_at ≡ p.reached_at
  unfolding note_best
  note_best-reached_at x now p = ground arith

  module _ (args : Args) (start : ℕ) (s : Sample f) (c : Clock) (hs : List (Turn f)) where
    abbrev pub turns : List (Turn f)
    turns = (s, c) ∷ hs

    Any-at_best :
        (b : f.Carrier) (at : ℕ) (w : ℤ) (hs : List (Turn f))
        → has_passed w at c.at_plateau ≡ true
        → Any (λ (s', c'). (conns_of f s' ≡ b) × (c'.at_best ≡ at)) hs
        → Any (λ (s', c'). (conns_of f s' ≡ b) × (has_passed w c'.at_best c.at_plateau ≡ true)) hs
    Any-at_best b at w [] h n = n
    Any-at_best b at w (x ∷ xs) h (inl (e, t)) = inl (e, rw t h)
    Any-at_best b at w (x ∷ xs) h (inr n) = inr (Any-at_best b at w xs h n)

    Any-at_reached :
        (at : ℕ) (w : ℤ) (hs : List (Turn f))
        → has_passed w at c.at_hold ≡ true
        → Any (λ (s', c'). IsMet f (s', c') × (c'.at_reached ≡ at)) hs
        → Any (λ (s', c'). IsMet f (s', c') × (has_passed w c'.at_reached c.at_hold ≡ true)) hs
    Any-at_reached at w [] h n = n
    Any-at_reached at w (x ∷ xs) h (inl (e, t)) = inl (e, rw t h)
    Any-at_reached at w (x ∷ xs) h (inr n) = inr (Any-at_reached at w xs h n)

    check_time_plateau :
        (p : Progress f) (b : f.Carrier)
        → p.best ≡ some b
        → has_passed args.plateau p.best_at c.at_plateau ≡ true
        → check_time f args start c p ≡ stop (no_growth b args.plateau)
    unfolding check_time
    check_time_plateau p b e h = ground arith

    check_time_limit :
        (p : Progress f)
        → has_passed args.plateau p.best_at c.at_plateau ≡ false
        → (check_time f args start c p ≡ stop (time_limit args.max))
            × (has_passed args.max start c.at_limit ≡ true)
          ⊎ (check_time f args start c p ≡ go_on p)
    unfolding check_time
    check_time_limit p h = elim (Bool-cases (has_passed args.max start c.at_limit)) [
      | inl late ↦ inl (rw (h, late) refl, late)
      | inr early ↦ inr (rw (h, early) refl)
    ]

    -- What a decision has to be: the reason is explained, or the invariant holds of the new state.
    abbrev pub Sound : Decision f → Type 0
    Sound (stop r) = Explains args start turns r
    Sound (go_on p) = Invariant f turns p

    check_time-Sound :
        (p : Progress f)
        → Best f turns p
        → ReachedSoFar f turns p.reached_at
        → Sound (check_time f args start c p)
    check_time-Sound p b r = elim (Bool-cases (has_passed args.plateau p.best_at c.at_plateau)) [
      | inl late ↦
          rw (check_time_plateau p b.value b.is_best late)
            (refl, Any-at_best b.value p.best_at args.plateau turns late b.from_turn, b.bound)
      | inr early ↦ elim (check_time_limit p early) [
        | inl (e, late) ↦ rw e (refl, late)
        | inr e ↦ rw e (inr b, r)
      ]
    ]

    check_target_unmet :
        (p : Progress f)
        → is_reached f s.loadgen_target (conns_of f s) ≡ false
        → check_target f args start s c p ≡ check_time f args start c p
    unfolding check_target
    check_target_unmet p h = rw h refl

    -- The time since which the target counts as met.
    abbrev since_of : Progress f → ℕ
    since_of p = or_now p.reached_at c.at_reached

    check_target_held :
        (p : Progress f)
        → IsMet f (s, c)
        → has_passed args.hold (since_of p) c.at_hold ≡ true
        → check_target f args start s c p
          ≡ stop (target_held (or_none f s.loadgen_target) args.hold)
    unfolding check_target
    check_target_held p h late = rw (h, late) refl

    check_target_met :
        (p : Progress f)
        → IsMet f (s, c)
        → has_passed args.hold (since_of p) c.at_hold ≡ false
        → check_target f args start s c p
          ≡ check_time f args start c (record p { reached_at = some (since_of p) })
    unfolding check_target
    check_target_met p h early = rw (h, early) refl

    IsMet-since :
        (reached : Option ℕ)
        → IsMet f (s, c)
        → ReachedSoFar f hs reached
        → Any (λ (s', c'). IsMet f (s', c') × (c'.at_reached ≡ or_now reached c.at_reached)) turns
    IsMet-since reached h (inl e) = rw e (inl (h, refl))
    IsMet-since reached h (inr (since, e, n)) =
        let same : since ≡ or_now reached c.at_reached = rw e refl in
        subst (λ t. Any (λ (s', c'). IsMet f (s', c') × (c'.at_reached ≡ t)) turns) same (inr n)

    target_of_met : IsMet f (s, c) → s.loadgen_target ≡ some (or_none f s.loadgen_target)
    target_of_met h = ground arith

    older : (reached : Option ℕ) → ReachedSoFar f hs reached → ReachedSoFar f turns reached
    older reached (inl e) = inl e
    older reached (inr (since, e, n)) = inr (since, e, inr n)

    reached-Best :
        (p : Progress f) (reached : Option ℕ)
        → Best f turns p
        → Best f turns (record p { reached_at = reached })
    reached-Best p reached b = record {
      value = b.value;
      is_best = b.is_best;
      count = b.count;
      from_turn = b.from_turn;
      bound = b.bound;
    }

    check_target-Sound :
        (p : Progress f)
        → Best f turns p
        → ReachedSoFar f hs p.reached_at
        → Sound (check_target f args start s c p)
    check_target-Sound p b r = elim (Bool-cases (is_reached f s.loadgen_target (conns_of f s))) [
      | inr unmet ↦ rw (check_target_unmet p unmet) (check_time-Sound p b (older p.reached_at r))
      | inl met ↦
          let n = IsMet-since p.reached_at met r in
          elim (Bool-cases (has_passed args.hold (since_of p) c.at_hold)) [
            | inl late ↦
                rw (check_target_held p met late)
                  (refl, target_of_met met, met, Any-at_reached (since_of p) args.hold turns late n)
            | inr early ↦ rw (check_target_met p met early) (
                check_time-Sound (record p { reached_at = some (since_of p) })
                  (reached-Best p (some (since_of p)) b) (inr (since_of p, refl, n)))
          ]
    ]

    pub decide-Sound :
        IsFloat f
        → (p : Progress f) → Invariant f hs p
        → IsCount f s
        → Sound (decide f args start p s c)
    unfolding decide
    decide-Sound laws p (b, r) n = elim (Bool-cases (starts_with s.state (codes "running"))) [
      | inr gone ↦ rw gone (refl, gone)
      | inl up ↦ rw up (
          check_target-Sound (note_best f (conns_of f s) c.at_best p)
            (note_best-Best f laws s c hs p b n)
            (rw (note_best-reached_at (conns_of f s) c.at_best p) r))
    ]
