-- ===== src/Record/Loop/History.antt =====
-- What the variables of record.py's loop say of the rounds so far: `best` and `best_at` come from one
-- of the samples and bound them all, and `reached_at` comes from a round that met the target. A
-- history lists the rounds from the last back to the first.
use millionws.Base.{
  ℕ, ◌≡◌, refl, ◌⊎◌, inl, inr, true, false, Option, none, some, List, [], ◌∷◌, All, Any, All-map_of,
  arith, Bool-cases,
}
use millionws.Record.Number.{Float, IsFloat, zero_of}
use millionws.Record.Sampler.{Sample}
use millionws.Record.Loop.{Clock, Progress, conns_of, note_best, is_reached}

module _ (f : Float) where
  abbrev pub Turn : Type 0
  Turn = Sample f × Clock

  -- The number of connections of a sample is a number, and not negative.
  abbrev pub IsCount : Sample f → Type 0
  IsCount s = f.le (zero_of f) (conns_of f s) ≡ true

  -- `x <= best * 1.005`
  abbrev pub IsWithin : f.Carrier → Turn → Type 0
  IsWithin best (s, _) = f.le (conns_of f s) (f.mul best (f.literal 1005 3)) ≡ true

  pub record Best (hs : List Turn) (p : Progress f) : Type 0 where
    pub value : f.Carrier
    pub is_best : p.best ≡ some value
    pub count : f.le (zero_of f) value ≡ true
    pub from_turn : Any (λ (s, c). (conns_of f s ≡ value) × (c.at_best ≡ p.best_at)) hs
    pub bound : All (IsWithin value) hs

  abbrev pub BestSoFar : List Turn → Progress f → Type 0
  BestSoFar hs p = ((p.best ≡ none) × (hs ≡ [])) ⊎ Best hs p

  module _ (laws : IsFloat f) where
    note_best_first :
        (s : Sample f) (c : Clock) (p : Progress f)
        → p.best ≡ none
        → IsCount s
        → Best ((s, c) ∷ []) (note_best f (conns_of f s) c.at_best p)
    unfolding note_best
    note_best_first s c p e n = record {
      value = conns_of f s;
      is_best = rw e refl;
      count = n;
      from_turn = rw e (inl (refl, refl));
      bound = (laws.le_grow (conns_of f s) n, tt);
    }

    note_best_grown :
        (s : Sample f) (c : Clock) (hs : List Turn) (p : Progress f) (b : Best hs p)
        → f.lt (f.mul b.value (f.literal 1005 3)) (conns_of f s) ≡ true
        → IsCount s
        → Best ((s, c) ∷ hs) (note_best f (conns_of f s) c.at_best p)
    unfolding note_best
    note_best_grown s c hs p b grown n =
        let old = f.mul b.value (f.literal 1005 3) in
        let next = conns_of f s in
        let up = laws.le_trans old next _ (laws.le_of_lt old next grown) (laws.le_grow next n) in
        record {
          value = next;
          is_best = rw (b.is_best, grown) refl;
          count = n;
          from_turn = rw (b.is_best, grown) (inl (refl, refl));
          bound = (
            laws.le_grow next n,
            All-map_of
                (λ (t : Turn).
                  λ (h : IsWithin b.value t). laws.le_trans (conns_of f t.0) old _ h up)
                hs b.bound,
          );
        }

    note_best_same :
        (x b : f.Carrier) (now : ℕ) (p : Progress f)
        → p.best ≡ some b
        → f.lt (f.mul b (f.literal 1005 3)) x ≡ false
        → note_best f x now p ≡ p
    unfolding note_best
    note_best_same x b now p e kept = ground arith

    note_best_kept :
        (s : Sample f) (c : Clock) (hs : List Turn) (p : Progress f) (b : Best hs p)
        → f.lt (f.mul b.value (f.literal 1005 3)) (conns_of f s) ≡ false
        → IsCount s
        → Best ((s, c) ∷ hs) (note_best f (conns_of f s) c.at_best p)
    note_best_kept s c hs p b kept n =
        let old = f.mul b.value (f.literal 1005 3) in
        let next = conns_of f s in
        rw (note_best_same next b.value c.at_best p b.is_best kept) (record {
          value = b.value;
          is_best = b.is_best;
          count = b.count;
          from_turn = inr b.from_turn;
          bound = (
            laws.le_of_not_lt old next
                (laws.eq_of_le_right b.value old (laws.le_grow b.value b.count))
                (laws.eq_of_le_right (zero_of f) next n) kept,
            b.bound,
          );
        })

    -- A round keeps `best` within half a percent of every sample.
    pub note_best-Best :
        (s : Sample f) (c : Clock) (hs : List Turn) (p : Progress f)
        → BestSoFar hs p
        → IsCount s
        → Best ((s, c) ∷ hs) (note_best f (conns_of f s) c.at_best p)
    note_best-Best s c hs p (inl (e, nil)) n = rw nil (note_best_first s c p e n)
    note_best-Best s c hs p (inr b) n =
        elim (Bool-cases (f.lt (f.mul b.value (f.literal 1005 3)) (conns_of f s))) [
          | inl grown ↦ note_best_grown s c hs p b grown n
          | inr kept ↦ note_best_kept s c hs p b kept n
        ]

  -- A round in which the target was met.
  abbrev pub IsMet : Turn → Type 0
  IsMet (s, _) = is_reached f s.loadgen_target (conns_of f s) ≡ true

  abbrev pub ReachedSoFar : List Turn → Option ℕ → Type 0
  ReachedSoFar hs reached =
      (reached ≡ none)
      ⊎ ((since : ℕ) × (reached ≡ some since)
          × Any (λ (s, c). IsMet (s, c) × (c.at_reached ≡ since)) hs)

  abbrev pub Invariant : List Turn → Progress f → Type 0
  Invariant hs p = BestSoFar hs p × ReachedSoFar hs p.reached_at
