-- ===== src/Evidence/Timeline.antt =====
-- scripts/evidence/plot_run.py: what its two charts show. The exported series are the document of
-- export_prometheus.py; a time of theirs is an int or a float, of which a parameter makes a datetime, and
-- a time of the day is its seconds since midnight.
pub mod Window
pub mod Exported
use millionws.Base.{
  ℕ, ◌+◌, ◌*◌, Bool, true, false, not, ◌&&◌, Option, none, some, List, [], ◌∷◌, map, if◌then◌else◌,
  ltb,
}
use millionws.Base.Int.{ℤ, pos, negsuc}
use millionws.Base.Text.{Text, codes, text_eq, is_empty, split_at}
use millionws.Base.Text.Integer.{int_of_text}
use millionws.Base.Dict.{Dict, lookup}
use millionws.Base.Sort.{text_lt}
use millionws.Base.Result.{
  Result, ok, raised, value_error, type_error, key_error, index_error, attribute_error, or_raise,
  ◌>>=◌,
}
use millionws.Record.Number.{Float, Num, to_float}
use millionws.Evidence.Trace.{Row, cell, int_cell}
use millionws.Evidence.Export.{Prometheus, Entry, result, error}

-- `[call(x) for x in xs]`
unfoldable pub collect : {A B : Type 0} → (A → Result B) → List A → Result (List B)
collect call [] = ok []
collect call (x ∷ xs) = elim (call x) [
  | raised e ↦ raised e
  | ok y ↦ elim (collect call xs) [ raised e ↦ raised e | ok ys ↦ ok (y ∷ ys) ]
]

-- A field of `datetime`, which is at least 0 and below a bound.
abbrev pub field_below : ℕ → ℤ → Result ℕ
field_below bound (negsuc n) = raised value_error
field_below bound (pos n) = if ltb n bound then ok n else raised value_error

-- `h, m, sec = map(int, parts)` and the `datetime` of them.
abbrev pub hms_parts : List Text → Result ℕ
hms_parts (a ∷ b ∷ c ∷ []) = do
  h ← or_raise (int_of_text a) value_error
  m ← or_raise (int_of_text b) value_error
  s ← or_raise (int_of_text c) value_error
  hour ← field_below 24 h
  minute ← field_below 60 m
  second ← field_below 60 s
  ok (3600 * hour + 60 * minute + second)
hms_parts _ = raised value_error

-- `hms(s)` on the day of the run
unfoldable pub hms : Text → Result ℕ
unfolding split_at
hms s = hms_parts (split_at b':' s)

abbrev pub first_of : {A : Type 0} → List A → Result A
first_of [] = raised index_error
first_of (x ∷ xs) = ok x

-- `KILLS`, the times
abbrev pub kills : List Text
kills = codes "10:31:18" ∷ codes "11:07:51" ∷ codes "11:33:53" ∷ []

-- `"11:33:20" <= r["local"] <= "11:34:12"`
abbrev pub in_zoom_text : Text → Bool
in_zoom_text t = not (text_lt t (codes "11:33:20")) && not (text_lt (codes "11:34:12") t)

unfoldable pub in_zoom : Row → Result Bool
in_zoom r = do
  local ← cell (codes "local") r
  elim local [ none ↦ raised type_error | some t ↦ ok (in_zoom_text t) ]

-- `[r for r in mw if …]`
unfoldable pub zoomed : List Row → Result (List Row)
zoomed [] = ok []
zoomed (r ∷ rs) = elim (in_zoom r) [
  | raised e ↦ raised e
  | ok b ↦ elim (zoomed rs) [ raised e ↦ raised e | ok kept ↦ ok (if b then r ∷ kept else kept) ]
]

abbrev pub int_column : Text → Row → Result ℤ
int_column name r = do v ← cell name r; int_cell v

abbrev pub hms_column : Row → Result ℕ
hms_column r = do
  local ← cell (codes "local") r
  elim local [ none ↦ raised attribute_error | some t ↦ hms t ]

module _ (f : Float) where
  -- `v / 1e6`
  abbrev pub millions : f.Carrier → f.Carrier
  millions x = f.quotient x (f.of_int (pos 1_000_000))

  pub record Zoom : Type 0 where
    pub times : List ℕ
    pub total : List ℤ
    pub anon : List ℤ
    pub sock : List ℤ
    pub kernel : List ℤ
    pub limit_label_at : ℕ
    pub profile_start : ℕ
    pub established : List f.Carrier

  -- chart 2, of the rows of the 1 Hz trace
  unfoldable pub zoom : List Row → Result Zoom
  zoom rows = do
    mw ← zoomed rows
    x ← collect hms_column mw
    total ← collect (int_column (codes "current_mib")) mw
    anon ← collect (int_column (codes "anon_mib")) mw
    sock ← collect (int_column (codes "sock_mib")) mw
    kernel ← collect (int_column (codes "kernel_mib")) mw
    label_at ← first_of x
    profile ← hms (codes "11:33:39")
    estab ← collect (int_column (codes "estab")) mw
    ok (record {
      times = x;
      total = total;
      anon = anon;
      sock = sock;
      kernel = kernel;
      limit_label_at = label_at;
      profile_start = profile;
      established = map (λ n. millions (f.of_int n)) estab;
    })

  -- `float(v)`
  abbrev pub number : Text → Result f.Carrier
  number v = or_raise (f.parse v) value_error

  -- `float("nan")`
  abbrev pub nan : Result f.Carrier
  nan = number (codes "nan")

  abbrev container : Row → Result f.Carrier
  container r = do
    v ← cell (codes "container_mem_mib") r
    elim v [ none ↦ nan | some s ↦ elim (is_empty s) [ true ↦ nan | false ↦ number s ] ]

  module _ {M : Type 0} (from_timestamp : f.Carrier → Result M) (p : Prometheus)
      (values : p.Series → Option (List (Num f × Text))) where
    abbrev pub result_of : Entry p → Result (List p.Series)
    result_of (result query series) = ok series
    result_of (error query e) = raised key_error

    -- `dt(t)`; `from_timestamp` is `datetime.fromtimestamp` in the zone IST.
    abbrev pub dt : Num f × Text → Result M
    dt (t, v) = from_timestamp (to_float f t)

    abbrev pub value_of : Num f × Text → Result f.Carrier
    value_of (t, v) = elim (text_eq v (codes "NaN")) [ true ↦ nan | false ↦ number v ]

    -- `get(name)`
    unfoldable pub get : Dict (Entry p) → Text → Result (List M × List f.Carrier)
    get series name = do
      entry ← or_raise (lookup name series) key_error
      all ← result_of entry
      one ← first_of all
      r ← or_raise (values one) key_error
      times ← collect dt r
      v ← collect value_of r
      ok (times, v)

    -- `datetime.strptime(s, "%Y-%m-%dT%H:%M:%S%z")` of a cell.
    abbrev stamp : (Text → Result M) → Row → Result M
    stamp strptime r = do
      local ← cell (codes "local") r
      elim local [ none ↦ raised type_error | some t ↦ strptime t ]

    -- `max(x, 1e-3) if x == x else float("nan")`
    abbrev clipped : f.Carrier → Result f.Carrier
    clipped x = elim (f.eq x x) [
      | true ↦ ok (if f.lt x (f.literal 1 3) then f.literal 1 3 else x)
      | false ↦ nan
    ]

    pub record Overview : Type 0 where
      pub connections : List M × List f.Carrier
      pub memory : List M × List f.Carrier
      pub latency : List M × List f.Carrier
      pub marks : List ℕ

    -- chart 1, of the exported series and the rows of the server's sampler
    unfoldable pub overview : (Text → Result M) → Dict (Entry p) → List Row → Result Overview
    overview strptime series rows = do
      st ← collect (stamp strptime) rows
      cont ← collect container rows
      conns ← get series (codes "server_connections_active")
      p99 ← get series (codes "echo_latency_p99_seconds_30s")
      slow ← collect clipped p99.1
      marks ← collect hms kills
      ok (record {
        connections = (conns.0, map millions conns.1);
        memory = (st, cont);
        latency = (p99.0, slow);
        marks = marks;
      })
