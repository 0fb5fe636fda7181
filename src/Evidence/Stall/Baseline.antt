-- ===== src/Evidence/Stall/Baseline.antt =====
-- The memory before a freeze, from which plot_stalls.py counts the headroom, and the rows of a panel.
use millionws.Base.{
  ℕ, zero, suc, ltb, Bool-cases, true, if◌then◌else◌, ◌&&◌, ◌+◌, ◌++◌, ap, ◌↔◌, ◌/◌, ◌≤◌, ◌<◌, ◌≡◌,
  refl, ◌⊎◌, inl, inr, none, List, [], ◌∷◌, filter, length, get_elem?, All, arith,
}
use millionws.Base.Int.{ℤ, pos, negsuc, ◌-ℤ◌, ltb_ℤ}
use millionws.Base.Text.{Text, codes, split_at}
use millionws.Base.Text.Laws.{text_eq_iff}
use millionws.Base.Text.Integer.{decimal, decimal_ℤ}
use millionws.Base.Sort.{sorted}
use millionws.Base.Sort.Rank.{IsAtRank, sorted_in, length-sorted}
use millionws.Base.Result.{ok, raised, value_error, index_error}
use millionws.Record.Number.{Float}
use millionws.Evidence.Trace.{Row, Point, products, sec_float, load, clock_weights}
use millionws.Evidence.Trace.Load.{IsSec, IsRow, points, load-points}
use millionws.Evidence.Stall.{
  Test, in_window, is_before, currents, baseline, highest, max_from_limit, title_of, panel_of,
  Panel, panel,
}

beyond : {A : Type 0} (xs : List A) (i : ℕ) → length xs ≤ i → get_elem? xs i ≡ none
beyond [] i h = refl
beyond (x ∷ xs) zero h = absurd (omega arith)
beyond (x ∷ xs) (suc i) h = beyond xs i (omega arith)

le_or_lt : (a b : ℕ) → (a ≤ b) ⊎ (b < a)
le_or_lt a b = elim (Bool-cases (ltb b a)) [
  | inl e ↦ inr (ground arith)
  | inr e ↦ inl (ground arith)
]

module _ (f : Float) where
  products-IsSec :
      (ps : List Text) (ms : List ℕ)
      → ((xs : List f.Carrier) × (products f ps ms ≡ ok xs))
        ⊎ (products f ps ms ≡ raised value_error)
  unfolding products
  products-IsSec [] ms = inl ([], refl)
  products-IsSec (p ∷ ps) [] = inl ([], refl)
  products-IsSec (p ∷ ps) (m ∷ ms) = ground (arith, products-IsSec ps ms)

  sec_float-IsSec : IsSec (sec_float f)
  unfolding sec_float
  sec_float-IsSec t = elim (products-IsSec (split_at b':' t) clock_weights) [
    | inl (xs, e) ↦ inl (f.sum xs, rw e refl)
    | inr e ↦ inr (rw e refl)
  ]

  -- The memory of the rows at a negative time.
  abbrev pub before : List (Point f.Carrier) → List ℤ
  before [] = []
  before (r ∷ rows) =
      let rest = before rows in if f.lt r.at (f.of_int (pos 0)) then r.current ∷ rest else rest

  before-eq : (rows : List (Point f.Carrier)) → currents f (filter (is_before f) rows) ≡ before rows
  before-eq [] = refl
  before-eq (r ∷ rows) = elim (Bool-cases (f.lt r.at (f.of_int (pos 0)))) [
    | inl e ↦ rw e (ap (λ l. r.current ∷ l) (before-eq rows))
    | inr e ↦ rw e (before-eq rows)
  ]

  baseline-cases :
      (rows : List (Point f.Carrier))
      → ((length (before rows) ≤ length rows / 4) × (baseline f rows ≡ raised index_error))
        ⊎ ((base : ℤ) × (baseline f rows ≡ ok base) × IsAtRank base (length rows / 4) (before rows))
  unfolding baseline
  baseline-cases rows = elim (le_or_lt (length (before rows)) (length rows / 4)) [
    | inl few ↦ inl (
      few,
      rw
          (
            before-eq rows,
            beyond (sorted ltb_ℤ (before rows)) (length rows / 4)
                (rw (length-sorted (before rows)) few),
          )
          refl,
    )
    | inr many ↦
        let (base, e, rank) = sorted_in (before rows) (length rows / 4) many in
        inr (base, rw (before-eq rows, e) refl, rank)
  ]

  -- From 8 seconds before the freeze to 6 seconds behind its end.
  abbrev pub within : ℕ → List (Point f.Carrier) → List (Point f.Carrier)
  within dur [] = []
  within dur (r ∷ rows) =
      let rest = within dur rows in
      if f.le (f.of_int (negsuc 7)) r.at && f.le r.at (f.of_int (pos (dur + 6)))
      then r ∷ rest
      else rest

  within-eq :
      (dur : ℕ) (rows : List (Point f.Carrier)) → filter (in_window f dur) rows ≡ within dur rows
  within-eq dur [] = refl
  within-eq dur (r ∷ rows) =
      elim (Bool-cases (f.le (f.of_int (negsuc 7)) r.at && f.le r.at (f.of_int (pos (dur + 6))))) [
        | inl e ↦ rw e (ap (λ l. r ∷ l) (within-eq dur rows))
        | inr e ↦ rw e (within-eq dur rows)
      ]

  -- The rows that a panel shows.
  abbrev pub shown : Test → List Row → List (Point f.Carrier)
  shown test file = within test.dur (points (sec_float f) f.sub test.start file)

  -- The title, with a headroom.
  abbrev pub heading : Test → ℤ → Text
  heading test headroom =
      decimal test.dur
      ++ (codes " s freeze, limit "
          ++ (decimal test.limit
              ++ (codes " MiB\n"
                  ++ (test.capitals
                      ++ (codes "  (headroom " ++ (decimal_ℤ headroom ++ codes " MiB)"))))))

  title_of-heading :
      (test : Test) (base : ℤ) → title_of test base ≡ heading test (pos test.limit -ℤ base)
  unfolding title_of
  title_of-heading test base = refl

  highest-ok :
      (limit i : ℕ) (base : ℤ) (rows : List (Point f.Carrier))
      → IsAtRank base i (before rows)
      → (high : ℤ) × (highest limit (currents f rows) ≡ ok high)
  highest-ok limit i base [] h = absurd (omega arith)
  highest-ok limit i base (r ∷ rows) h = (max_from_limit (pos limit) (currents f (r ∷ rows)), refl)

  load-shown :
      (test : Test) (file : List Row)
      → All IsRow file
      → load (sec_float f) f.sub test.start file ≡ ok (points (sec_float f) f.sub test.start file)
  load-shown test file h = load-points (sec_float f) f.sub test.start file sec_float-IsSec h

  panel-few :
      (test : Test) (file : List Row)
      → All IsRow file
      → baseline f (shown test file) ≡ raised index_error
      → panel f test file ≡ raised index_error
  unfolding panel
  panel-few test file h e =
      rw
        (load-shown test file h, within-eq test.dur (points (sec_float f) f.sub test.start file), e)
        refl

  panel-many :
      (test : Test) (file : List Row) {base high : ℤ}
      → All IsRow file
      → baseline f (shown test file) ≡ ok base
      → highest test.limit (currents f (shown test file)) ≡ ok high
      → panel f test file ≡ ok (panel_of f test (shown test file) base high)
  unfolding panel
  panel-many test file h e k =
      rw
        (
          load-shown test file h,
          within-eq test.dur (points (sec_float f) f.sub test.start file),
          e,
          k,
        )
        refl

  -- On a file whose rows have the three columns and a wall clock, the panel's window goes from 8 seconds
  -- before the freeze to 6 seconds behind its end; let q be a quarter of the number of rows in it,
  -- rounded down. If at most q of them lie before the freeze, the panel fails with IndexError. If more
  -- do, the panel shows the rows in the window and the container's limit, is green just if the test says
  -- "survived", and its title gives as headroom the limit less a base: the memory of a row
  -- before the freeze, such that at most q of the rows before the freeze have less memory, and fewer
  -- have more than their number less q.
  pub panel-baseline :
      (test : Test) (file : List Row)
      → All IsRow file
      → let rows = shown test file in
        ((length (before rows) ≤ length rows / 4) × (panel f test file ≡ raised index_error))
        ⊎ ((length rows / 4 < length (before rows))
            × ((base : ℤ) × (p : Panel f) × (panel f test file ≡ ok p)
                × (p.curves ≡ rows)
                × (p.line ≡ test.limit)
                × ((p.green ≡ true) ↔ (test.res ≡ codes "survived"))
                × (p.title ≡ heading test (pos test.limit -ℤ base))
                × IsAtRank base (length rows / 4) (before rows)))
  unfolding panel_of
  panel-baseline test file h =
      let rows = shown test file in
      elim (baseline-cases rows) [
        | inl (few, e) ↦ inl (few, panel-few test file h e)
        | inr (base, e, rank) ↦
            let (high, k) = highest-ok test.limit (length rows / 4) base rows rank in
            inr (
              omega arith,
              (
                base,
                panel_of f test rows base high,
                panel-many test file h e k,
                refl,
                refl,
                text_eq_iff test.res (codes "survived"),
                title_of-heading test base,
                rank,
              ),
            )
      ]
