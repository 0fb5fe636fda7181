-- ===== src/Compare.antt =====
-- The comparison table, bench/local/compare.py: `load` groups the runs by variant, `stat` reports the
-- median with the range, `stop_label` shortens the reason, and `main` prints a row for each variant.
-- A run is the summary that record.py wrote.
pub mod Groups
pub mod Labels
pub mod Middle
pub mod Range
pub mod Stops
pub mod Table
mod Tests
use millionws.Base.{
  ℕ, ◌/◌, ◌-◌, ◌%◌, Bool, true, false, ◌&&◌, ◌||◌, Option, none, some, List, [], ◌∷◌, ◌++◌, map,
  length, if◌then◌else◌, ltb, ◌==◌, get_elem?,
}
use millionws.Base.Int.{ℤ, pos, ◌+ℤ◌, ltb_ℤ, eqb_ℤ}
use millionws.Base.Text.{Text, codes, starts_with, text_eq, member, join}
use millionws.Base.Sort.{text_lt, insert_sorted, sorted}
use millionws.Base.Text.Integer.{decimal}
use millionws.Base.Dict.{Dict}
use millionws.Base.Result.{Result, ok, raised}
use millionws.Record.Number.{Float, Num, int, float, to_float}
use millionws.Record.Summary.{Summary}

-- `groups.setdefault(v, []).append(s)`
unfoldable pub append_to {ℓ} : {A : Type ℓ} → Text → A → Dict (List A) → Dict (List A)
append_to v s [] = (v, s ∷ []) ∷ []
append_to v s ((w, runs) ∷ groups) =
    if text_eq v w then (w, runs ++ (s ∷ [])) ∷ groups else (w, runs) ∷ append_to v s groups

-- The elements of a set of strings, each once.
unfoldable pub distinct : List Text → List Text
distinct [] = []
distinct (s ∷ ss) = let rest = distinct ss in if member s ss then rest else s ∷ rest

module _ (f : Float) where
  abbrev pub Run : Type 0
  Run = Summary f

  -- `load(dirs)`, of what each directory's summary.json holds: no file, or what reading it gives.
  load_from : Dict (List Run) → List (Option (Result Run)) → Result (Dict (List Run))
  load_from groups [] = ok groups
  load_from groups (none ∷ dirs) = load_from groups dirs
  load_from groups (some (raised e) ∷ dirs) = raised e
  load_from groups (some (ok s) ∷ dirs) = load_from (append_to s.variant s groups) dirs

  unfoldable pub load : List (Option (Result Run)) → Result (Dict (List Run))
  unfolding load_from
  load dirs = load_from [] dirs

  -- `a < b` and `a == b` of numbers
  unfoldable pub num_lt : Num f → Num f → Bool
  num_lt (int a) (int b) = ltb_ℤ a b
  num_lt (int a) (float y) = f.lt (f.of_int a) y
  num_lt (float x) b = f.lt x (to_float f b)

  unfoldable pub num_eq : Num f → Num f → Bool
  num_eq (int a) (int b) = eqb_ℤ a b
  num_eq (int a) (float y) = f.eq (f.of_int a) y
  num_eq (float x) b = f.eq x (to_float f b)

  -- `(a + b) / 2`
  unfoldable pub midpoint : Num f → Num f → Num f
  unfolding ◌+ℤ◌
  midpoint (int a) (int b) = float (f.quotient (f.of_int (a +ℤ b)) (f.of_int (pos 2)))
  midpoint (int a) (float y) = float (f.quotient (f.add (f.of_int a) y) (f.of_int (pos 2)))
  midpoint (float x) b = float (f.quotient (f.add x (to_float f b)) (f.of_int (pos 2)))

  -- The element at a position that the list has.
  abbrev pub at_or : Num f → List (Num f) → ℕ → Num f
  at_or d xs i = elim (get_elem? xs i) [ none ↦ d | some x ↦ x ]

  -- `statistics.median` of `v ∷ vs`.
  unfoldable pub median : Num f → List (Num f) → Num f
  unfolding sorted insert_sorted num_lt midpoint
  median v vs =
      let xs = sorted num_lt (v ∷ vs) in
      let half = length xs / 2 in
      if length xs % 2 == 1
      then at_or v xs half
      else midpoint (at_or v xs (half - 1)) (at_or v xs half)

  -- `min` and `max` from the first value on; the first of equal ones stays.
  unfoldable pub least : Num f → List (Num f) → Num f
  least m [] = m
  least m (x ∷ xs) = least (if num_lt x m then x else m) xs

  unfoldable pub greatest : Num f → List (Num f) → Num f
  greatest m [] = m
  greatest m (x ∷ xs) = greatest (if num_lt m x then x else m) xs

  -- `[v for v in values if v is not None]`
  unfoldable pub present : List (Option (Num f)) → List (Num f)
  present [] = []
  present (none ∷ vs) = present vs
  present (some v ∷ vs) = v ∷ present vs

  unfoldable pub stat_of : List (Num f) → (Num f → Text) → Text
  stat_of [] fmt = codes "n/a"
  stat_of (v ∷ []) fmt = fmt (median v [])
  stat_of (v ∷ w ∷ vs) fmt =
      let mid = fmt (median v (w ∷ vs)) in
      let low = least v (w ∷ vs) in
      let high = greatest v (w ∷ vs) in
      if num_eq low high
      then mid
      else mid ++ (codes " (" ++ (fmt low ++ (codes " to " ++ (fmt high ++ codes ")"))))

  unfoldable pub stat : List (Option (Num f)) → (Num f → Text) → Text
  unfolding present stat_of
  stat values fmt = stat_of (present values) fmt

  unfoldable pub stop_label : Run → Text
  stop_label run =
      if run.oom_killed
      then codes "OOM kill"
      else if starts_with run.stop_reason (codes "no growth")
      then codes "stopped growing, server still up"
      else run.stop_reason

  -- `count`, `kib` and `ms` of `main`, and the percentage of the CPU column.
  unfoldable pub count : Num f → Text
  count v = f.fixed 0 (to_float f v)

  unfoldable pub kib : Num f → Text
  kib v = f.plain 2 (f.quotient (to_float f v) (f.of_int (pos 1024)))

  unfoldable pub percent : Num f → Text
  percent v = f.plain 0 (to_float f v) ++ codes "%"

  abbrev pub ints : Option ℤ → Option (Num f)
  ints none = none
  ints (some n) = some (int n)

  abbrev pub floats : Option f.Carrier → Option (Num f)
  floats none = none
  floats (some x) = some (float x)

  abbrev pub header : List Text
  header =
      codes
        "| Variant | Runs | Peak connections | KiB per connection | Kernel KiB | Go (anon) KiB | CPU near peak | Echo p99 ms | Stopped by |"
      ∷ codes "| --- | --- | --- | --- | --- | --- | --- | --- | --- |"
      ∷ []

  -- The row of a variant.
  unfoldable pub row : Text → List Run → Text
  unfolding stat stop_label sorted distinct join
  row variant runs =
      codes "| "
      ++ (join (codes " | ") (
            (codes "`" ++ (variant ++ codes "`"))
            ∷ decimal (length runs)
            ∷ stat (map (λ r. some (int r.peak_connections)) runs) count
            ∷ stat (map (λ r. ints r.bytes_per_connection.cgroup_total) runs) kib
            ∷ stat (map (λ r. ints r.bytes_per_connection.kernel_other) runs) kib
            ∷ stat (map (λ r. ints r.bytes_per_connection.cgroup_anon) runs) kib
            ∷ stat (map (λ r. floats r.cpu_pct_near_peak_avg) runs) percent
            ∷ stat (map (λ r. floats r.at_peak.echo_p99_ms) runs) count
            ∷ join (codes "; ") (sorted text_lt (distinct (map stop_label runs)))
            ∷ [])
          ++ codes " |")

  rows_of : Dict (List Run) → List Text
  rows_of [] = []
  rows_of ((variant, runs) ∷ groups) = row variant runs ∷ rows_of groups

  -- The lines that `main` prints.
  unfoldable pub main : List (Option (Result Run)) → Result (List Text)
  unfolding load row rows_of
  main dirs = elim (load dirs) [ raised e ↦ raised e | ok groups ↦ ok (header ++ rows_of groups) ]
