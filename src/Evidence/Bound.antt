-- ===== src/Evidence/Bound.antt =====
-- scripts/evidence/plot_tcp_bound.py: what each of its two panels shows.
pub mod Reads
use millionws.Base.{
  ℕ, ◌+◌, ◌*◌, Bool, true, false, ◌&&◌, List, [], ◌∷◌, ◌++◌, filter, map, if◌then◌else◌,
}
use millionws.Base.Int.{ℤ, pos, negsuc, ◌-ℤ◌, leb_ℤ}
use millionws.Base.Text.{Text, codes, contains}
use millionws.Base.Result.{Result, ok, raised, ◌>>=◌}
use millionws.Record.Number.{Float}
use millionws.Evidence.Trace.{Row, Point, sec, load}

-- The trace's file, the start and the length of the freeze, the connections and the title.
pub record Freeze : Type 0 where
  pub name : Text
  pub start : Text
  pub freeze : ℕ
  pub conns : ℕ
  pub title : Text

abbrev pub freezes : List Freeze
freezes =
    record {
      name = codes "mw_bound_60";
      start = codes "17:14:21";
      freeze = 60;
      conns = 250_003;
      title = codes "250,003 connections, 60 s freeze: survived";
    }
    ∷ record {
      name = codes "mw_rmem_30";
      start = codes "17:00:34";
      freeze = 30;
      conns = 1_000_009;
      title = codes "1,000,009 connections, 30 s freeze: killed on resume";
    }
    ∷ []

-- `-5 <= x[0] <= freeze + 12`
abbrev pub in_window : ℕ → Point ℤ → Bool
in_window freeze x = leb_ℤ (negsuc 4) x.at && leb_ℤ x.at (pos (freeze + 12))

module _ (f : Float) where
  -- The two curves, the bound with its label, the title and whether it is green.
  pub record Panel : Type 0 where
    pub curves : List (Point ℤ)
    pub bound : f.Carrier
    pub label : Text
    pub title : Text
    pub green : Bool

  -- `conns * 4 / 1024`
  abbrev pub bound_of : ℕ → f.Carrier
  bound_of conns = f.quotient (f.of_int (pos (conns * 4))) (f.of_int (pos 1024))

  -- A round of the loop over the axes, of the rows in the freeze's file.
  unfoldable pub panel : Freeze → List Row → Result Panel
  unfolding load ◌-ℤ◌ contains
  panel z rows = do
    points ← load sec ◌-ℤ◌ z.start rows
    let bound = bound_of z.conns
    ok (record {
      curves = filter (in_window z.freeze) points;
      bound = bound;
      label = codes "connections x 4 KiB = " ++ (f.fixed 0 bound ++ codes " MiB");
      title = z.title;
      green = contains (codes "survived") z.title;
    })
