-- ===== src/Compare/Middle.antt =====
-- The median that compare.py's `stat` reports of an odd number of ints.
pub mod Even
use millionws.Base.{
  ℕ, zero, suc, ◌+◌, ◌-◌, ◌*◌, ◌/◌, ◌%◌, ◌≤◌, ◌<◌, ◌≡◌, refl, ap, subst, some-injective, ◌∙◌, Bool,
  Option, some, List, [], ◌∷◌, map, length, All, All-map_of, arith, Bool-cases, get_elem?,
  if◌then◌else◌, inl, inr, ◌==◌,
}
use millionws.Base.Int.{ℤ, ◌≤ℤ◌, ltb_ℤ, eqb_ℤ}
use millionws.Base.Text.{Text}
use millionws.Record.Number.{Float, Num, int}
use millionws.Base.Sort.{insert_sorted, sorted}
use millionws.Base.Sort.Rank.{
  count_if, IsAtRank, sorted_at, get_elem?-in, sorted-IsSorted, count_if-sorted, length-sorted,
}
use millionws.Compare.{num_lt, at_or, midpoint, median, stat}
use millionws.Compare.Range.{Spans, column, shown, stat-shown}

-- Fewer than half of an odd number of ints are smaller, fewer than half are greater, and one is equal.
abbrev pub IsMiddle : ℤ → List ℤ → Type 0
IsMiddle m xs =
    (2 * count_if (λ k. ltb_ℤ k m) xs < length xs)
    × (2 * count_if (λ k. ltb_ℤ m k) xs < length xs)
    × (1 ≤ count_if (λ k. eqb_ℤ k m) xs)

at_half-IsMiddle :
    (m : ℤ) (xs : List ℤ)
    → length xs % 2 ≡ 1
    → IsAtRank m (length xs / 2) (sorted ltb_ℤ xs)
    → IsMiddle m xs
at_half-IsMiddle m xs odd (a, b, c) =
    let smaller = count_if-sorted (λ k. ltb_ℤ k m) xs in
    let greater = count_if-sorted (λ k. ltb_ℤ m k) xs in
    let equal = count_if-sorted (λ k. eqb_ℤ k m) xs in
    let same = length-sorted xs in (omega arith, omega arith, omega arith)

module _ (f : Float) where
  insert_sorted-map :
      (x : ℤ) (ys : List ℤ)
      → insert_sorted (num_lt f) (int x) (map int ys) ≡ map int (insert_sorted ltb_ℤ x ys)
  unfolding insert_sorted num_lt
  insert_sorted-map x [] = refl
  insert_sorted-map x (y ∷ ys) = elim (Bool-cases (ltb_ℤ y x)) [
    | inl e ↦ rw e (ap (λ zs. int y ∷ zs) (insert_sorted-map x ys))
    | inr e ↦ rw e refl
  ]

  pub sorted-map : (xs : List ℤ) → sorted (num_lt f) (map int xs) ≡ map int (sorted ltb_ℤ xs)
  unfolding sorted
  sorted-map [] = refl
  sorted-map (x ∷ xs) =
      ap (insert_sorted (num_lt f) (int x)) (sorted-map xs) ∙ insert_sorted-map x (sorted ltb_ℤ xs)

  pub length-map : (xs : List ℤ) → length {A = Num f} (map int xs) ≡ length xs
  length-map [] = refl
  length-map (x ∷ xs) = ap suc (length-map xs)

  pub get_elem?-map :
      (xs : List ℤ) (i : ℕ) {m : ℤ}
      → get_elem? xs i ≡ some m
      → ◌≡◌ {A = Option (Num f)} (get_elem? (map int xs) i) (some (int m))
  get_elem?-map [] i h = cc
  get_elem?-map (x ∷ xs) zero h = ap (λ k. some (int k)) (some-injective _ _ h)
  get_elem?-map (x ∷ xs) (suc i) h = get_elem?-map xs i h

  -- What `statistics.median` takes of the sorted list.
  abbrev pub pick : Num f → List (Num f) → Num f
  pick v xs =
      if length xs % 2 == 1
      then at_or f v xs (length xs / 2)
      else midpoint f (at_or f v xs (length xs / 2 - 1)) (at_or f v xs (length xs / 2))

  pick_odd :
      (v : Num f) (xs : List (Num f)) (k : ℕ) {x : Num f}
      → length xs ≡ k
      → k % 2 ≡ 1
      → get_elem? xs (k / 2) ≡ some x
      → pick v xs ≡ x
  pick_odd v xs k h odd e = rw (h, odd, at_or, e) refl

  pub median-eq :
      (v : Num f) (vs : List (Num f)) → median f v vs ≡ pick v (sorted (num_lt f) (v ∷ vs))
  unfolding median sorted
  median-eq v vs = refl

  median_at :
      (n : ℤ) (ns : List ℤ) {m : ℤ}
      → length (n ∷ ns) % 2 ≡ 1
      → get_elem? (sorted ltb_ℤ (n ∷ ns)) (length (n ∷ ns) / 2) ≡ some m
      → median f (int n) (map int ns) ≡ int m
  median_at n ns odd h =
      let ordered = sorted ltb_ℤ (n ∷ ns) in
      median-eq (int n) (map int ns)
      ∙ ap (pick (int n)) (sorted-map (n ∷ ns))
      ∙ pick_odd (int n) (map int ordered) (length (n ∷ ns))
          (length-map ordered ∙ length-sorted (n ∷ ns)) odd
          (get_elem?-map ordered (length (n ∷ ns) / 2) h)

  -- The median of an odd number of ints.
  median-IsMiddle :
      (n : ℤ) (ns : List ℤ)
      → length (n ∷ ns) % 2 ≡ 1
      → (m : ℤ) × (median f (int n) (map int ns) ≡ int m) × IsMiddle m (n ∷ ns)
  median-IsMiddle n ns odd =
      let xs = n ∷ ns in
      let ordered = sorted ltb_ℤ xs in
      let (m, e) = get_elem?-in ordered (length xs / 2) (rw (length-sorted xs) (omega arith)) in
      let rank = sorted_at m ordered (length xs / 2) (sorted-IsSorted xs) e in
      (m, median_at n ns odd e, at_half-IsMiddle m xs odd rank)

  -- Of a column of an odd number of ints, `stat` shows a value of the column with fewer than half of
  -- them smaller and fewer than half greater; behind it, where they are not all equal, the least and
  -- the greatest of them.
  pub stat-IsMiddle :
      (n : ℤ) (ns : List ℤ) (fmt : Num f → Text)
      → length (n ∷ ns) % 2 ≡ 1
      → (m : ℤ) × (low : ℤ) × (high : ℤ) × (stat f (column f (n ∷ ns)) fmt
          ≡ shown f (fmt (int m)) low high fmt)
        × IsMiddle m (n ∷ ns)
        × Spans low high (n ∷ ns)
  stat-IsMiddle n ns fmt odd =
      let (m, e, middle) = median-IsMiddle n ns odd in
      let (low, high, text, bounds, least_in, greatest_in) = stat-shown f n ns fmt in
      (
        m,
        low,
        high,
        text ∙ ap (λ v. shown f (fmt v) low high fmt) e,
        middle,
        (bounds, least_in, greatest_in),
      )
