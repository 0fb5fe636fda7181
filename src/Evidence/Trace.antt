-- ===== src/Evidence/Trace.antt =====
-- The memory traces of scripts/evidence, which plot_stalls.py and plot_tcp_bound.py read alike: a CSV
-- file with the wall clock and two sizes in each row. A row that cannot be read is left out.
pub mod Clock
pub mod Order
pub mod Load
use millionws.Base.{ℕ, Bool, true, false, Option, none, some, List, [], ◌∷◌, map, if◌then◌else◌}
use millionws.Base.Int.{ℤ, pos, ◌+ℤ◌, scale}
use millionws.Base.Text.{Text, codes, split_at}
use millionws.Base.Text.Integer.{int_of_text}
use millionws.Base.Dict.{Dict, lookup}
use millionws.Base.Result.{
  Result, Exception, ok, raised, value_error, type_error, key_error, attribute_error, or_raise,
  ◌>>=◌,
}
use millionws.Record.Number.{Float}

-- A row of `csv.DictReader`: a cell that a short row lacks is None.
abbrev pub Row : Type 0
Row = Dict (Option Text)

abbrev pub cell : Text → Row → Result (Option Text)
cell name x = or_raise (lookup name x) key_error

-- `int(v)` of a cell.
abbrev pub int_cell : Option Text → Result ℤ
int_cell none = raised type_error
int_cell (some s) = or_raise (int_of_text s) value_error

abbrev pub clock_weights : List ℕ
clock_weights = 3600 ∷ 60 ∷ 1 ∷ []

-- `sum(int(p) * m for p, m in zip(parts, weights))`, after some of the parts.
unfoldable pub weigh : ℤ → List Text → List ℕ → Result ℤ
unfolding ◌+ℤ◌ scale
weigh total [] ms = ok total
weigh total (p ∷ ps) [] = ok total
weigh total (p ∷ ps) (m ∷ ms) = elim (int_of_text p) [
  | none ↦ raised value_error
  | some n ↦ weigh (total +ℤ scale m n) ps ms
]

-- `sec` of plot_tcp_bound.py
unfoldable pub sec : Text → Result ℤ
unfolding weigh split_at
sec t = weigh (pos 0) (split_at b':' t) clock_weights

module _ (f : Float) where
  -- The products of `sec` of plot_stalls.py.
  unfoldable pub products : List Text → List ℕ → Result (List f.Carrier)
  products [] ms = ok []
  products (p ∷ ps) [] = ok []
  products (p ∷ ps) (m ∷ ms) = elim (f.parse p) [
    | none ↦ raised value_error
    | some x ↦ elim (products ps ms) [
      | raised e ↦ raised e
      | ok xs ↦ ok (f.mul x (f.of_int (pos m)) ∷ xs)
    ]
  ]

  -- `sec` of plot_stalls.py
  unfoldable pub sec_float : Text → Result f.Carrier
  unfolding products split_at
  sec_float t = do xs ← products (split_at b':' t) clock_weights; ok (f.sum xs)

-- An element of `rows`: the seconds from the start, and the two sizes in MiB.
pub record Point (T : Type 0) : Type 0 where
  pub at : T
  pub current : ℤ
  pub sock : ℤ

-- `except (TypeError, ValueError): pass`
abbrev pub is_skipped : Exception → Bool
is_skipped type_error = true
is_skipped value_error = true
is_skipped e = false

module _ {T : Type 0} (sec : Text → Result T) (minus : T → T → T) (start : Text) where
  -- `sec` of a cell; None has no `split`.
  abbrev pub sec_cell : Option Text → Result T
  sec_cell none = raised attribute_error
  sec_cell (some s) = sec s

  unfoldable pub point : Row → Result (Point T)
  point x = do
    local ← cell (codes "local") x
    t ← sec_cell local
    t0 ← sec start
    current ← cell (codes "current_mib") x
    c ← int_cell current
    sock ← cell (codes "sock_mib") x
    s ← int_cell sock
    ok (record { at = minus t t0; current = c; sock = s })

  unfoldable pub load : List Row → Result (List (Point T))
  load [] = ok []
  load (x ∷ xs) = elim (point x) [
    | ok p ↦ elim (load xs) [ ok ps ↦ ok (p ∷ ps) | raised e ↦ raised e ]
    | raised e ↦ if is_skipped e then load xs else raised e
  ]
