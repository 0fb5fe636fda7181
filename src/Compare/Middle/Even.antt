-- ===== src/Compare/Middle/Even.antt =====
-- The median that compare.py's `stat` reports of an even number of ints.
use millionws.Base.{
  ℕ, ◌-◌, ◌/◌, ◌%◌, ◌≡◌, refl, ap, ◌∙◌, some, List, ◌∷◌, map, length, arith, get_elem?,
}
use millionws.Base.Int.{ℤ, pos, ltb_ℤ, ◌+ℤ◌}
use millionws.Base.Text.{Text}
use millionws.Record.Number.{Float, Num, int, float}
use millionws.Base.Sort.{sorted}
use millionws.Base.Sort.Rank.{IsAtRank, length-sorted, sorted_in}
use millionws.Compare.{at_or, midpoint, median, stat}
use millionws.Compare.Range.{Spans, column, shown, stat-shown}
use millionws.Compare.Middle.{pick, sorted-map, length-map, get_elem?-map, median-eq}

module _ (f : Float) where
  pick_even :
      (v : Num f) (xs : List (Num f)) (k : ℕ) {x y : Num f}
      → length xs ≡ k
      → k % 2 ≡ 0
      → get_elem? xs (k / 2 - 1) ≡ some x
      → get_elem? xs (k / 2) ≡ some y
      → pick f v xs ≡ midpoint f x y
  pick_even v xs k h even e e' = rw (h, even, at_or, e, e') refl

  -- The median of an even number of ints.
  median-IsAtRank :
      (n : ℤ) (ns : List ℤ)
      → length (n ∷ ns) % 2 ≡ 0
      → (a : ℤ) × (b : ℤ) × (median f (int n) (map int ns)
          ≡ float (f.quotient (f.of_int (a +ℤ b)) (f.of_int (pos 2))))
        × IsAtRank a (length (n ∷ ns) / 2 - 1) (n ∷ ns)
        × IsAtRank b (length (n ∷ ns) / 2) (n ∷ ns)
  unfolding midpoint
  median-IsAtRank n ns even =
      let xs = n ∷ ns in
      let ordered = sorted ltb_ℤ xs in
      let (a, low, at_a) = sorted_in xs (length xs / 2 - 1) (omega arith) in
      let (b, high, at_b) = sorted_in xs (length xs / 2) (omega arith) in
      (
        a,
        b,
        median-eq f (int n) (map int ns)
            ∙ ap (pick f (int n)) (sorted-map f xs)
            ∙ pick_even (int n) (map int ordered) (length xs)
                (length-map f ordered ∙ length-sorted xs) even
                (get_elem?-map f ordered (length xs / 2 - 1) low)
                (get_elem?-map f ordered (length xs / 2) high),
        at_a,
        at_b,
      )

  -- Of a column of an even number of ints, 2 * h, `stat` shows half the sum, as a float, of two of them,
  -- `a` and `b`: at most h - 1 of the ints are smaller than `a` and at most h are greater, and at most h
  -- are smaller than `b` and at most h - 1 are greater; behind it, where they are not all equal, the
  -- least and the greatest of them.
  pub stat-IsAtRank :
      (n : ℤ) (ns : List ℤ) (fmt : Num f → Text)
      → length (n ∷ ns) % 2 ≡ 0
      → (a : ℤ) × (b : ℤ) × (low : ℤ) × (high : ℤ) × (stat f (column f (n ∷ ns)) fmt
          ≡ shown f (fmt (float (f.quotient (f.of_int (a +ℤ b)) (f.of_int (pos 2))))) low high fmt)
        × IsAtRank a (length (n ∷ ns) / 2 - 1) (n ∷ ns)
        × IsAtRank b (length (n ∷ ns) / 2) (n ∷ ns)
        × Spans low high (n ∷ ns)
  stat-IsAtRank n ns fmt even =
      let (a, b, e, at_a, at_b) = median-IsAtRank n ns even in
      let (low, high, text, bounds, least_in, greatest_in) = stat-shown f n ns fmt in
      (
        a,
        b,
        low,
        high,
        text ∙ ap (λ v. shown f (fmt v) low high fmt) e,
        at_a,
        at_b,
        (bounds, least_in, greatest_in),
      )
