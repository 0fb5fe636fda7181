-- ===== src/Evidence/Bound/Reads.antt =====
-- A panel of plot_tcp_bound.py, against the samples that were written to the trace.
use millionws.Base.{
  ℕ, ◌+◌, ◌*◌, ◌<◌, ◌≡◌, refl, ◌⊎◌, inl, inr, some, Option-cases, List, [], ◌∷◌, ◌++◌, filter, map,
  All,
}
use millionws.Base.Int.{ℤ, pos, ◌+ℤ◌, ◌-ℤ◌, scale}
use millionws.Base.Text.{Text, codes, contains, text_eq, split_at}
use millionws.Base.Text.Integer.{decimal, int_of_text}
use millionws.Base.Text.Integer.Digits.{int_of_text-decimal}
use millionws.Base.Dict.{lookup}
use millionws.Base.Result.{ok, raised, value_error}
use millionws.Record.Number.{Float}
use millionws.Evidence.Trace.{Row, Point, sec, weigh, clock_weights, point, load}
use millionws.Evidence.Trace.Clock.{clock, sec-clock}
use millionws.Evidence.Trace.Load.{IsSec, IsRow, points, load-points}
use millionws.Evidence.Bound.{Freeze, in_window, bound_of, panel}

weigh-IsSec :
    (total : ℤ) (ps : List Text) (ms : List ℕ)
    → ((n : ℤ) × (weigh total ps ms ≡ ok n)) ⊎ (weigh total ps ms ≡ raised value_error)
unfolding weigh
weigh-IsSec total [] ms = inl (total, refl)
weigh-IsSec total (p ∷ ps) [] = inl (total, refl)
weigh-IsSec total (p ∷ ps) (m ∷ ms) = elim (Option-cases (int_of_text p)) [
  | inl e ↦ inr (rw (weigh, e) refl)
  | inr (n, e) ↦ rw (weigh, e) (weigh-IsSec (total +ℤ scale m n) ps ms)
]

sec-IsSec : IsSec sec
unfolding sec
sec-IsSec t = weigh-IsSec (pos 0) (split_at b':' t) clock_weights

-- `load` of plot_tcp_bound.py raises nothing on rows that have the three columns and a wall clock: it
-- returns the points of the rows that can be read, in order, and leaves the others out.
pub load-reads :
    (start : Text) (rows : List Row)
    → All IsRow rows
    → load sec ◌-ℤ◌ start rows ≡ ok (points sec ◌-ℤ◌ start rows)
load-reads start rows h = load-points sec ◌-ℤ◌ start rows sec-IsSec h

-- A line of the trace: the wall clock and the two sizes.
pub record Sample : Type 0 where
  pub hour : ℕ
  pub minute : ℕ
  pub second : ℕ
  pub current : ℕ
  pub sock : ℕ

abbrev pub IsClock : Sample → Type 0
IsClock x = (x.hour < 100) × (x.minute < 100) × (x.second < 100)

abbrev pub row : Sample → Row
row x =
    (codes "local", some (clock x.hour x.minute x.second))
    ∷ (codes "current_mib", some (decimal x.current))
    ∷ (codes "sock_mib", some (decimal x.sock))
    ∷ []

abbrev pub seconds : ℕ → ℕ → ℕ → ℤ
seconds h m s = pos (3600 * h + 60 * m + s)

module _ (h m s : ℕ) where
  abbrev pub reading : Sample → Point ℤ
  reading x = record {
    at = seconds x.hour x.minute x.second -ℤ seconds h m s;
    current = pos x.current;
    sock = pos x.sock;
  }

  module _ (start : (h < 100) × (m < 100) × (s < 100)) where
    point-row : (x : Sample) → IsClock x → point sec ◌-ℤ◌ (clock h m s) (row x) ≡ ok (reading x)
    unfolding point lookup text_eq
    point-row x c =
        rw
          (
            sec-clock x.hour x.minute x.second c.0 c.1 c.2,
            sec-clock h m s start.0 start.1 start.2,
            int_of_text-decimal x.current,
            int_of_text-decimal x.sock,
          )
          refl

    load-rows :
        (xs : List Sample)
        → All IsClock xs
        → load sec ◌-ℤ◌ (clock h m s) (map row xs) ≡ ok (map reading xs)
    unfolding load
    load-rows [] c = refl
    load-rows (x ∷ xs) c = rw (load, point-row x c.0, load-rows xs c.1) refl

    -- Of a trace whose lines are samples with two digits in each part of the clock, and with a freeze
    -- that starts at such a clock, a panel shows the samples in `in_window`, each at its seconds from
    -- the start and with its two sizes; it is green if the title says "survived".
    pub panel-samples :
        (f : Float) (z : Freeze) (xs : List Sample)
        → z.start ≡ clock h m s
        → All IsClock xs
        → panel f z (map row xs)
          ≡ ok (record {
            curves = filter (in_window z.freeze) (map reading xs);
            bound = bound_of f z.conns;
            label =
                codes "connections x 4 KiB = " ++ (f.fixed 0 (bound_of f z.conns) ++ codes " MiB");
            title = z.title;
            green = contains (codes "survived") z.title;
          })
    unfolding panel
    panel-samples f z xs e c = rw (e, load-rows xs c) refl
