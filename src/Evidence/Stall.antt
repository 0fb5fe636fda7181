-- ===== src/Evidence/Stall.antt =====
-- scripts/evidence/plot_stalls.py: what the panel of each stall test shows.
pub mod Baseline
use millionws.Base.{
  ℕ, ◌+◌, ◌/◌, Bool, true, false, ◌&&◌, List, [], ◌∷◌, ◌++◌, filter, map, length, get_elem?,
  if◌then◌else◌,
}
use millionws.Base.Int.{ℤ, pos, negsuc, ◌-ℤ◌, ltb_ℤ}
use millionws.Base.Text.{Text, codes, text_eq}
use millionws.Base.Text.Integer.{decimal, decimal_ℤ}
use millionws.Base.Sort.{sorted}
use millionws.Base.Result.{Result, ok, raised, value_error, index_error, or_raise, ◌>>=◌}
use millionws.Record.Number.{Float}
use millionws.Evidence.Trace.{Row, Point, sec_float, load}

-- An entry of `TESTS`: the trace's file, the start and the length of the freeze, the container's
-- limit in MiB, and how the test ended, also in the capitals of `res.upper()`.
pub record Test : Type 0 where
  pub file : Text
  pub start : Text
  pub dur : ℕ
  pub limit : ℕ
  pub res : Text
  pub capitals : Text

abbrev survived : Text → Text → ℕ → ℕ → Test
survived file start dur limit = record {
  file = file;
  start = start;
  dur = dur;
  limit = limit;
  res = codes "survived";
  capitals = codes "SURVIVED";
}

abbrev killed : Text → Text → ℕ → ℕ → Test
killed file start dur limit = record {
  file = file;
  start = start;
  dur = dur;
  limit = limit;
  res = codes "killed";
  capitals = codes "KILLED";
}

abbrev pub stall_tests : List Test
stall_tests =
    survived (codes "memwatch_limit6g_5s.csv") (codes "13:20:38.8") 5 6144
    ∷ killed (codes "memwatch_limit6g_9s.csv") (codes "13:23:45.9") 9 6144
    ∷ survived (codes "memwatch_limit6500m_9s.csv") (codes "13:29:53.1") 9 6500
    ∷ killed (codes "memwatch_limit6500m_14s.csv") (codes "13:33:04.1") 14 6500
    ∷ killed (codes "memwatch_7g_14s.csv") (codes "14:57:31.2") 14 7168
    ∷ []

-- `max(m, max(ns))` from `m` on
abbrev pub max_from_limit : ℤ → List ℤ → ℤ
max_from_limit m [] = m
max_from_limit m (n ∷ ns) = max_from_limit (if ltb_ℤ m n then n else m) ns

-- `max(limit, max(ns))`
abbrev pub highest : ℕ → List ℤ → Result ℤ
highest limit [] = raised value_error
highest limit (n ∷ ns) = ok (max_from_limit (pos limit) (n ∷ ns))

-- The panel's title.
unfoldable pub title_of : Test → ℤ → Text
unfolding ◌-ℤ◌
title_of test base =
    decimal test.dur
    ++ (codes " s freeze, limit "
        ++ (decimal test.limit
            ++ (codes " MiB\n"
                ++ (test.capitals
                    ++ (codes "  (headroom "
                        ++ (decimal_ℤ (pos test.limit -ℤ base) ++ codes " MiB)"))))))

module _ (f : Float) where
  -- `-8 <= r[0] <= dur + 6`
  abbrev pub in_window : ℕ → Point f.Carrier → Bool
  in_window dur r = f.le (f.of_int (negsuc 7)) r.at && f.le r.at (f.of_int (pos (dur + 6)))

  -- `r[0] < 0`
  abbrev pub is_before : Point f.Carrier → Bool
  is_before r = f.lt r.at (f.of_int (pos 0))

  abbrev pub currents : List (Point f.Carrier) → List ℤ
  currents = map (λ r. r.current)

  -- `base`
  unfoldable pub baseline : List (Point f.Carrier) → Result ℤ
  unfolding sorted
  baseline rows =
      or_raise (get_elem? (sorted ltb_ℤ (currents (filter is_before rows))) (length rows / 4))
        index_error

  -- The two curves, the limit's line, the title and whether it is green, and the top of the axis.
  pub record Panel : Type 0 where
    pub curves : List (Point f.Carrier)
    pub line : ℕ
    pub title : Text
    pub green : Bool
    pub top : f.Carrier

  unfoldable pub panel_of : Test → List (Point f.Carrier) → ℤ → ℤ → Panel
  unfolding text_eq
  panel_of test rows base high = record {
    curves = rows;
    line = test.limit;
    title = title_of test base;
    green = text_eq test.res (codes "survived");
    top = f.mul (f.of_int high) (f.literal 108 2);
  }

  -- A round of the loop over the axes, of the rows in the test's file.
  unfoldable pub panel : Test → List Row → Result Panel
  panel test file_rows = do
    points ← load (sec_float f) f.sub test.start file_rows
    let rows = filter (in_window test.dur) points
    base ← baseline rows
    high ← highest test.limit (currents rows)
    ok (panel_of test rows base high)
