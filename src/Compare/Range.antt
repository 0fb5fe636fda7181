-- ===== src/Compare/Range.antt =====
-- What `stat` of compare.py shows of a column of ints: the median, and the range where the values
-- differ.
use millionws.Base.{
  ◌≡◌, refl, sym, ap, ◌∙◌, ◌⊎◌, inl, inr, Bool, true, false, Option, some, List, [], ◌∷◌, ◌++◌, map,
  All, Any, arith, if◌then◌else◌,
}
use millionws.Base.Int.{ℤ, ◌≤ℤ◌, ltb_ℤ, eqb_ℤ}
use millionws.Base.Text.{Text, codes}
use millionws.Record.Number.{Float, Num, int}
use millionws.Compare.{num_lt, num_eq, median, least, greatest, present, stat_of, stat}

-- The least and the greatest value.
abbrev pub Spans : ℤ → ℤ → List ℤ → Type 0
Spans low high ns =
    All (λ k. (low ≤ℤ k) × (k ≤ℤ high)) ns × Any (λ k. k ≡ low) ns × Any (λ k. k ≡ high) ns

module _ (f : Float) where
  abbrev ints_of : List ℤ → List (Num f)
  ints_of = map int

  -- The column of these ints.
  abbrev pub column : List ℤ → List (Option (Num f))
  column = map (λ n. some (int n))

  abbrev smaller : ℤ → ℤ → ℤ
  smaller m x = if ltb_ℤ x m then x else m

  abbrev larger : ℤ → ℤ → ℤ
  larger m x = if ltb_ℤ m x then x else m

  int-if :
      (b : Bool) (x m : ℤ) → ◌≡◌ {A = Num f} (if b then int x else int m) (int (if b then x else m))
  int-if true x m = refl
  int-if false x m = refl

  -- The value is one of the list, or the first.
  abbrev OneOf : ℤ → ℤ → List ℤ → Type 0
  OneOf v m ns = (v ≡ m) ⊎ Any (λ n. n ≡ v) ns

  OneOf-rest :
      (v m x : ℤ) (b : Bool) (ns : List ℤ) → OneOf v (if b then x else m) ns → OneOf v m (x ∷ ns)
  OneOf-rest v m x true ns (inl e) = inr (inl (sym e))
  OneOf-rest v m x false ns (inl e) = inl e
  OneOf-rest v m x b ns (inr n) = inr (inr n)

  abbrev IsLeast : Num f → ℤ → List ℤ → Type 0
  IsLeast r m ns = (low : ℤ) × (r ≡ int low) × (low ≤ℤ m) × All (λ n. low ≤ℤ n) ns × OneOf low m ns

  least-IsLeast : (m : ℤ) (ns : List ℤ) → IsLeast (least f (int m) (ints_of ns)) m ns
  unfolding least num_lt
  least-IsLeast m [] = (m, refl, omega arith, tt, inl refl)
  least-IsLeast m (x ∷ ns) =
      let (low, e, below, all, o) = least-IsLeast (smaller m x) ns in
      (
        low,
        ap (λ r. least f r (ints_of ns)) (int-if (ltb_ℤ x m) x m) ∙ e,
        ground arith,
        (ground arith, all),
        OneOf-rest low m x (ltb_ℤ x m) ns o,
      )

  abbrev IsGreatest : Num f → ℤ → List ℤ → Type 0
  IsGreatest r m ns =
      (high : ℤ) × (r ≡ int high) × (m ≤ℤ high) × All (λ n. n ≤ℤ high) ns × OneOf high m ns

  greatest-IsGreatest : (m : ℤ) (ns : List ℤ) → IsGreatest (greatest f (int m) (ints_of ns)) m ns
  unfolding greatest num_lt
  greatest-IsGreatest m [] = (m, refl, omega arith, tt, inl refl)
  greatest-IsGreatest m (x ∷ ns) =
      let (high, e, above, all, o) = greatest-IsGreatest (larger m x) ns in
      (
        high,
        ap (λ r. greatest f r (ints_of ns)) (int-if (ltb_ℤ m x) x m) ∙ e,
        ground arith,
        (ground arith, all),
        OneOf-rest high m x (ltb_ℤ m x) ns o,
      )

  present-column : (ns : List ℤ) → present f (column ns) ≡ ints_of ns
  unfolding present
  present-column [] = refl
  present-column (n ∷ ns) = ap (λ vs. int n ∷ vs) (present-column ns)

  -- What is printed for a middle value and a range.
  abbrev pub shown : Text → ℤ → ℤ → (Num f → Text) → Text
  shown mid low high fmt =
      if eqb_ℤ low high
      then mid
      else mid ++ (codes " (" ++ (fmt (int low) ++ (codes " to " ++ (fmt (int high) ++ codes ")"))))

  only_value :
      (n low high : ℤ)
      → ◌≡◌ {A = Num f} (int n) (int low)
      → ◌≡◌ {A = Num f} (int n) (int high)
      → eqb_ℤ low high ≡ true
  only_value n low high el eh = ground arith

  first_or_rest : (v m : ℤ) (ns : List ℤ) → OneOf v m ns → Any (λ n. n ≡ v) (m ∷ ns)
  first_or_rest v m ns (inl e) = inl (sym e)
  first_or_rest v m ns (inr n) = inr n

  All-both :
      (low high : ℤ) (ns : List ℤ)
      → All (λ n. low ≤ℤ n) ns
      → All (λ n. n ≤ℤ high) ns
      → All (λ k. (low ≤ℤ k) × (k ≤ℤ high)) ns
  All-both low high [] a b = tt
  All-both low high (n ∷ ns) a b = ((a.0, b.0), All-both low high ns a.1 b.1)

  stat_of-shown :
      (n : ℤ) (ns : List ℤ) (low high : ℤ) (fmt : Num f → Text)
      → least f (int n) (ints_of ns) ≡ int low
      → greatest f (int n) (ints_of ns) ≡ int high
      → stat_of f (ints_of (n ∷ ns)) fmt ≡ shown (fmt (median f (int n) (ints_of ns))) low high fmt
  unfolding stat_of num_eq
  stat_of-shown n [] low high fmt el eh =
      rw (only_value n low high (unfold least in el) (unfold greatest in eh)) refl
  stat_of-shown n (m ∷ ns) low high fmt el eh = rw (el, eh) refl

  stat-eq : (ns : List ℤ) (fmt : Num f → Text) → stat f (column ns) fmt ≡ stat_of f (ints_of ns) fmt
  unfolding stat
  stat-eq ns fmt = ap (λ vs. stat_of f vs fmt) (present-column ns)

  -- Of a column of ints, not empty, `stat` shows the median alone where the least and the greatest
  -- value are equal, and else the median with the two, which are values of the column and bound it.
  pub stat-shown :
      (n : ℤ) (ns : List ℤ) (fmt : Num f → Text)
      → (low : ℤ) × (high : ℤ) × (stat f (column (n ∷ ns)) fmt
          ≡ shown (fmt (median f (int n) (map int ns))) low high fmt)
        × All (λ k. (low ≤ℤ k) × (k ≤ℤ high)) (n ∷ ns)
        × Any (λ k. k ≡ low) (n ∷ ns)
        × Any (λ k. k ≡ high) (n ∷ ns)
  stat-shown n ns fmt =
      let (low, el, lm, la, lo) = least-IsLeast n ns in
      let (high, eh, hm, ha, ho) = greatest-IsGreatest n ns in
      (
        low,
        high,
        stat-eq (n ∷ ns) fmt ∙ stat_of-shown n ns low high fmt el eh,
        ((lm, hm), All-both low high ns la ha),
        first_or_rest low n ns lo,
        first_or_rest high n ns ho,
      )
