-- ===== src/Record/Summary/Peak.antt =====
-- The sample that `write_summary` reports as the peak: the last one within half a percent of the
-- most connections.
use millionws.Base.{
  ◌≡◌, ◌≢◌, refl, sym, subst, ◌∙◌, ◌⊎◌, inl, inr, true, false, List, [], ◌∷◌, ◌++◌, map, filter,
  All, Any, Bool-cases, if◌then◌else◌, last?-filter, All-map, All-of_map, Any-of_map, Any-map_of,
  All-filter,
}
use millionws.Base.Result.{ok}
use millionws.Record.Number.{Float, IsFloat, zero_of}
use millionws.Record.Sampler.{Sample}
use millionws.Record.Loop.{conns_of}
use millionws.Record.Loop.History.{IsCount}
use millionws.Record.Summary.{is_live, is_near, top_of, max_from, max_or_zero, peak_of, choose_peak}

module _ (f : Float) where
  -- The samples that the summary is made of.
  abbrev pub live_of : List (Sample f) → List (Sample f)
  live_of = filter (is_live f)

  -- What `peak` is, of the samples where the server answered and the cgroup existed.
  abbrev pub IsPeak : List (Sample f) → Sample f → Type 0
  IsPeak live peak =
      (before : List (Sample f)) × (behind : List (Sample f)) × (live ≡ before ++ (peak ∷ behind))
      × (is_near f 995 (top_of f live) peak ≡ true)
      × All (λ s. is_near f 995 (top_of f live) s ≡ false) behind
      × All (λ s. f.le (conns_of f s) (top_of f live) ≡ true) live

module _ (f : Float) (laws : IsFloat f) where
  -- Not negative, and not NaN.
  abbrev IsNonneg : f.Carrier → Type 0
  IsNonneg x = f.le (zero_of f) x ≡ true

  abbrev IsAtMost : f.Carrier → f.Carrier → Type 0
  IsAtMost m x = f.le x m ≡ true

  -- One step of the maximum: the greater of two values.
  abbrev greater : f.Carrier → f.Carrier → f.Carrier
  greater m x = if f.lt m x then x else m

  number : (x : f.Carrier) → IsNonneg x → f.eq x x ≡ true
  number x h = laws.eq_of_le_right (zero_of f) x h

  greater_bounds :
      (m x : f.Carrier)
      → IsNonneg m
      → IsNonneg x
      → IsNonneg (greater m x) × IsAtMost (greater m x) m × IsAtMost (greater m x) x
  greater_bounds m x hm hx = elim (Bool-cases (f.lt m x)) [
    | inl less ↦ rw less (hx, laws.le_of_lt m x less, laws.le_self x (number x hx))
    | inr more ↦
        rw more
          (hm, laws.le_self m (number m hm), laws.le_of_not_lt m x (number m hm) (number x hx) more)
  ]

  greater_one_of : (m x : f.Carrier) → (greater m x ≡ m) ⊎ (greater m x ≡ x)
  greater_one_of m x = elim (Bool-cases (f.lt m x)) [
    | inl less ↦ inr (rw less refl)
    | inr more ↦ inl (rw more refl)
  ]

  one_of :
      (m x top : f.Carrier) (xs : List f.Carrier)
      → (top ≡ greater m x) ⊎ Any (λ y. y ≡ top) xs
      → (top ≡ m) ⊎ Any (λ y. y ≡ top) (x ∷ xs)
  one_of m x top xs (inr later) = inr (inr later)
  one_of m x top xs (inl e) = elim (greater_one_of m x) [
    | inl old ↦ inl (e ∙ old)
    | inr new ↦ inr (inl (sym (e ∙ new)))
  ]

  abbrev IsMaximum : f.Carrier → List f.Carrier → Type 0
  IsMaximum m xs = IsNonneg m × All (IsAtMost m) xs × Any (λ x. x ≡ m) xs

  max_from-bound :
      (m : f.Carrier) (xs : List f.Carrier)
      → IsNonneg m
      → All IsNonneg xs
      → IsNonneg (max_from f m xs)
        × IsAtMost (max_from f m xs) m
        × All (IsAtMost (max_from f m xs)) xs
        × ((max_from f m xs ≡ m) ⊎ Any (λ x. x ≡ max_from f m xs) xs)
  unfolding max_from
  max_from-bound m [] hm h = (hm, laws.le_self m (number m hm), tt, inl refl)
  max_from-bound m (x ∷ xs) hm h =
      let (hg, gm, gx) = greater_bounds m x hm h.0 in
      let (n, b, bs, o) = max_from-bound (greater m x) xs hg h.1 in
      (
        n,
        laws.le_trans m (greater m x) _ gm b,
        (laws.le_trans x (greater m x) _ gx b, bs),
        one_of m x _ xs o,
      )

  first_or :
      (x top : f.Carrier) (xs : List f.Carrier)
      → (top ≡ x) ⊎ Any (λ y. y ≡ top) xs
      → Any (λ y. y ≡ top) (x ∷ xs)
  first_or x top xs (inl e) = inl (sym e)
  first_or x top xs (inr later) = inr later

  max_or_zero-IsMaximum :
      (x : f.Carrier) (xs : List f.Carrier)
      → All IsNonneg (x ∷ xs)
      → IsMaximum (max_or_zero f (x ∷ xs)) (x ∷ xs)
  unfolding max_or_zero
  max_or_zero-IsMaximum x xs h =
      let (n, b, bs, o) = max_from-bound x xs h.0 h.1 in (n, (b, bs), first_or x _ xs o)

  top_of-bounds :
      (r : Sample f) (rs : List (Sample f))
      → All (IsCount f) (r ∷ rs)
      → IsNonneg (top_of f (r ∷ rs))
        × All (λ s. IsAtMost (top_of f (r ∷ rs)) (conns_of f s)) (r ∷ rs)
        × Any (λ s. conns_of f s ≡ top_of f (r ∷ rs)) (r ∷ rs)
  top_of-bounds r rs h =
      let counts = All-map IsNonneg (conns_of f) (r ∷ rs) h in
      let top = top_of f (r ∷ rs) in
      let (n, b, o) = max_or_zero-IsMaximum (conns_of f r) (map (conns_of f) rs) counts in
      (
        n,
        All-of_map (IsAtMost top) (conns_of f) (r ∷ rs) b,
        Any-of_map (λ x. x ≡ top) (conns_of f) (r ∷ rs) o,
      )

  near_top :
      (s : Sample f) (top : f.Carrier)
      → IsNonneg top
      → conns_of f s ≡ top
      → is_near f 995 top s ≡ true
  near_top s top n e =
      subst (λ x. f.le (f.mul (f.literal 995 3) top) x ≡ true) (sym e) (laws.shrink_le top n)

  choose_peak-eq : (rows : List (Sample f)) → choose_peak f rows ≡ peak_of f (live_of f rows) rows
  unfolding choose_peak
  choose_peak-eq rows = refl

  peak_of-IsPeak :
      (live rows : List (Sample f))
      → All (IsCount f) live
      → live ≢ []
      → (peak : Sample f) × (peak_of f live rows ≡ ok peak) × IsPeak f live peak
  unfolding peak_of
  peak_of-IsPeak [] rows h some_live = absurd (some_live refl)
  peak_of-IsPeak (r ∷ rs) rows h some_live =
      let top = top_of f (r ∷ rs) in
      let (n, b, o) = top_of-bounds r rs h in
      let near =
        Any-map_of (λ (s : Sample f). λ (e : conns_of f s ≡ top). near_top s top n e) (r ∷ rs) o in
      let (before, peak, behind, e, kept, missing, found) =
        last?-filter (is_near f 995 top) (r ∷ rs) near in
      (peak, rw found refl, (before, behind, e, kept, missing, b))

  pub choose_peak-IsPeak :
      (rows : List (Sample f))
      → All (IsCount f) rows
      → live_of f rows ≢ []
      → (peak : Sample f) × (choose_peak f rows ≡ ok peak) × IsPeak f (live_of f rows) peak
  choose_peak-IsPeak rows h some_live =
      let (peak, e, p) =
        peak_of-IsPeak (live_of f rows) rows (All-filter (IsCount f) (is_live f) rows h)
          some_live in
      (peak, choose_peak-eq rows ∙ e, p)
