-- ===== src/Compare/Stops.antt =====
-- The last column of compare.py's table, `sorted({stop_label(r) for r in runs})`.
use millionws.Base.{
  ◌++◌, ◌⊎◌, ◌↔◌, true, false, some, Any, length, sym, ◌≡◌, refl, ◌∙◌, List, [], ◌∷◌, map, arith,
  Bool-cases, inl, inr,
}
use millionws.Base.Text.{Text, codes, text_eq, starts_with, join, member, IsFresh}
use millionws.Base.Text.Integer.{decimal}
use millionws.Base.Text.Laws.{text_eq_iff}
use millionws.Record.Number.{Float, int}
use millionws.Base.Sort.{text_lt, sorted}
use millionws.Base.Sort.Increasing.{IsIncreasing, member-sorted, sorted-IsIncreasing}
use millionws.Compare.{distinct, stop_label, Run, row, stat, ints, floats, count, kib, percent}

member-distinct : (z : Text) (xs : List Text) → member z (distinct xs) ≡ member z xs
unfolding distinct member
member-distinct z [] = refl
member-distinct z (x ∷ xs) = ground (arith, member-distinct z xs, text_eq_iff z x)

distinct-IsFresh : (xs : List Text) → IsFresh (distinct xs)
unfolding distinct
distinct-IsFresh [] = tt
distinct-IsFresh (x ∷ xs) = elim (Bool-cases (member x xs)) [
  | inl e ↦ rw e (distinct-IsFresh xs)
  | inr e ↦ rw e (member-distinct x xs ∙ e, distinct-IsFresh xs)
]

module _ (f : Float) where
  -- The label of a run: a kill goes before the reason, and a reason "no growth …" has words of its own.
  abbrev pub IsLabel : Text → Run f → Type 0
  IsLabel label run =
      ((run.oom_killed ≡ true) × (label ≡ codes "OOM kill"))
      ⊎ ((run.oom_killed ≡ false)
          × (((starts_with run.stop_reason (codes "no growth") ≡ true)
                × (label ≡ codes "stopped growing, server still up"))
              ⊎ ((starts_with run.stop_reason (codes "no growth") ≡ false)
                  × (label ≡ run.stop_reason))))

  IsLabel-stop_label :
      (label : Text) (run : Run f) → (text_eq label (stop_label f run) ≡ true) ↔ IsLabel label run
  unfolding stop_label
  IsLabel-stop_label label run = ground (arith, text_eq_iff label (stop_label f run))

  member-labels :
      (label : Text) (runs : List (Run f))
      → (member label (map (stop_label f) runs) ≡ true) ↔ Any (IsLabel label) runs
  unfolding member
  member-labels label [] = (λ h. cc, λ h. absurd h)
  member-labels label (run ∷ runs) =
      let here = IsLabel-stop_label label run in
      let later = member-labels label runs in
      (
        λ h. elim (Bool-cases (text_eq label (stop_label f run))) [
          | inl e ↦ inl (here.0 e)
          | inr e ↦ inr (later.0 (rw e at h))
        ],
        λ h. elim h [ inl l ↦ rw (here.1 l) refl | inr l ↦ ground (arith, later.1 l) ],
      )

  -- A row of the table has eight cells and a last one, which lists the labels of the variant's runs in
  -- increasing order, each once: a text is listed just if it is the label of one of the runs.
  pub row-IsIncreasing :
      (variant : Text) (runs : List (Run f))
      → (cells : List Text) × (stops : List Text) × (length cells ≡ 8)
        × (row f variant runs
            ≡ codes "| "
              ++ (join (codes " | ") (cells ++ (join (codes "; ") stops ∷ [])) ++ codes " |"))
        × IsIncreasing stops
        × ((label : Text) → (member label stops ≡ true) ↔ Any (IsLabel label) runs)
  unfolding row
  row-IsIncreasing variant runs =
      let labels = map (stop_label f) runs in
      (
        (codes "`" ++ (variant ++ codes "`"))
            ∷ decimal (length runs)
            ∷ stat f (map (λ r. some (int r.peak_connections)) runs) (count f)
            ∷ stat f (map (λ r. ints f r.bytes_per_connection.cgroup_total) runs) (kib f)
            ∷ stat f (map (λ r. ints f r.bytes_per_connection.kernel_other) runs) (kib f)
            ∷ stat f (map (λ r. ints f r.bytes_per_connection.cgroup_anon) runs) (kib f)
            ∷ stat f (map (λ r. floats f r.cpu_pct_near_peak_avg) runs) (percent f)
            ∷ stat f (map (λ r. floats f r.at_peak.echo_p99_ms) runs) (count f)
            ∷ [],
        sorted text_lt (distinct labels),
        refl,
        refl,
        sorted-IsIncreasing (distinct labels) (distinct-IsFresh labels),
        λ label. (
          λ h.
              (member-labels label runs).0
                (sym (member-sorted label (distinct labels) ∙ member-distinct label labels) ∙ h),
          λ h.
              (member-sorted label (distinct labels) ∙ member-distinct label labels)
              ∙ (member-labels label runs).1 h,
        ),
      )
