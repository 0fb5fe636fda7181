-- ===== src/Evidence/Trace/Load.antt =====
-- Which rows of a trace are read.
use millionws.Base.{◌≡◌, refl, ◌⊎◌, inl, inr, true, Option, none, some, List, [], ◌∷◌, All, arith}
use millionws.Base.Text.{Text, codes}
use millionws.Base.Dict.{lookup}
use millionws.Base.Result.{Result, Exception, ok, raised, value_error, Result-cases}
use millionws.Evidence.Trace.{Row, Point, point, load, is_skipped, int_cell}

-- The row has the three columns, and the wall clock in the first.
abbrev pub IsRow : Row → Type 0
IsRow x =
    ((t : Text) × (lookup (codes "local") x ≡ some (some t)))
    × ((c : Option Text) × (lookup (codes "current_mib") x ≡ some c))
    × ((s : Option Text) × (lookup (codes "sock_mib") x ≡ some s))

-- `sec` returns, or raises ValueError.
abbrev pub IsSec : {T : Type 0} → (Text → Result T) → Type 0
IsSec {T} sec = (t : Text) → ((v : T) × (sec t ≡ ok v)) ⊎ (sec t ≡ raised value_error)

int_cell-skipped : (c : Option Text) (e : Exception) → int_cell c ≡ raised e → is_skipped e ≡ true
int_cell-skipped none e h = ground arith
int_cell-skipped (some s) e h = ground arith

module _ {T : Type 0} (sec : Text → Result T) (minus : T → T → T) (start : Text) where
  -- The points of the rows that can be read.
  abbrev pub points : List Row → List (Point T)
  points [] = []
  points (x ∷ xs) = elim (point sec minus start x) [ raised e ↦ points xs | ok p ↦ p ∷ points xs ]

  point-skipped :
      (x : Row) {e : Exception}
      → IsSec sec
      → IsRow x
      → point sec minus start x ≡ raised e
      → is_skipped e ≡ true
  unfolding point
  point-skipped x {e} clock ((t, a), (c, b), (s, d)) h =
      ground (arith, clock t, clock start, int_cell-skipped c e, int_cell-skipped s e)

  pub load-points :
      (xs : List Row) → IsSec sec → All IsRow xs → load sec minus start xs ≡ ok (points xs)
  unfolding load
  load-points [] clock h = refl
  load-points (x ∷ xs) clock h = elim (Result-cases (point sec minus start x)) [
    | inl (p, e) ↦ rw (load, points, e, load-points xs clock h.1) refl
    | inr (r, e) ↦ rw (load, points, e, point-skipped x clock h.0 e) (load-points xs clock h.1)
  ]
