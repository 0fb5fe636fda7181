-- ===== src/Evidence/Tests.antt =====
-- Runs of the evidence scripts, and the theorems at concrete data.
use millionws.Base.{
  ℕ, ◌/◌, ◌≤◌, ◌<◌, ◌≡◌, refl, ◌⊎◌, ◌↔◌, inl, inr, true, false, Option, none, some, List, [], ◌∷◌,
  ◌++◌, map, arith,
}
use millionws.Base.Int.{ℤ, pos, negsuc, ◌-ℤ◌}
use millionws.Base.Text.{Text, codes, text_eq, contains, split_at}
use millionws.Base.Text.Integer.{decimal, int_of_text}
use millionws.Base.Dict.{lookup}
use millionws.Base.Sort.Rank.{IsAtRank}
use millionws.Base.Result.{ok, raised, unicode_encode_error, index_error}
use millionws.Record.Number.{Num, int, float}
use millionws.Record.Number.Thousandths
use millionws.Record.Number.Thousandths.{thousandths}
use millionws.Evidence.Url.{urlencode}
use millionws.Evidence.Url.Total.{bytes, quoted, query_text}
use millionws.Evidence.Url.Decode.{parameters}
use millionws.Evidence.Export.{Options, Prometheus, Document, options_of, queries, url_of, export}
use millionws.Evidence.Export.Request.{before_query, parameters-url_of}
use millionws.Evidence.Export.Answers.{entries, lines, line_of, export-answers}
use millionws.Evidence.Trace.{Row, Point, sec, sec_float, products, load}
use millionws.Evidence.Bound.{Freeze, in_window, bound_of, panel}
use millionws.Evidence.Bound.Reads.{load-reads, panel-samples, reading, row}
use millionws.Evidence.Bound.Reads
use millionws.Evidence.Stall
use millionws.Evidence.Bound
use millionws.Evidence.Trace
use millionws.Evidence.Stall.Baseline.{heading, panel-baseline}
use millionws.Evidence.Timeline.{get, zoom}
use millionws.Evidence.Timeline.Window
use millionws.Evidence.Timeline.Window.{chart, zoom-samples}
use millionws.Evidence.Timeline.Exported.{get-entries}

query_url :
    urlencode ((codes "query", codes "up{job=\"a b\"}") ∷ (codes "step", codes "10é") ∷ [])
    ≡ ok (codes "query=up%7Bjob%3D%22a+b%22%7D&step=10%C3%A9")
unfolding urlencode
query_url = refl

-- An argument that is no UTF-8 has surrogates for its bytes.
surrogate_raises : urlencode ((codes "start", 0xdcff ∷ []) ∷ []) ≡ raised unicode_encode_error
unfolding urlencode
surrogate_raises = refl

-- Prometheus answers with two points for each query but `up`.
fake_fetch : Text → Text ⊎ List ℕ
unfolding contains
fake_fetch url = elim (contains (codes "query=up&") url) [
  | true ↦ inl (codes "timed out")
  | false ↦ inr (2 ∷ [])
]

abbrev fake : Prometheus
fake = record { Series = ℕ; fetch = fake_fetch; points = λ n. inr n }

abbrev options : Options
options = record {
  host = codes "10.0.0.1";
  start = codes "1790000000";
  end = codes "1790003600";
  out = codes "out.json";
  step = codes "10";
}

options_read :
    options_of (
      codes "10.0.0.1"
      ∷ codes "1790000000"
      ∷ codes "1790003600"
      ∷ codes "out.json"
      ∷ codes "10"
      ∷ [])
    ≡ ok options
unfolding options_of
options_read = refl

parameters-url_of_example :
    (s : Text) × (url_of options (codes "up{job=\"a b\"}") ≡ ok (before_query options ++ s))
    × (parameters s
        ≡ (codes "query", bytes (codes "up{job=\"a b\"}"))
          ∷ (codes "start", bytes (codes "1790000000"))
          ∷ (codes "end", bytes (codes "1790003600"))
          ∷ (codes "step", bytes (codes "10"))
          ∷ [])
parameters-url_of_example =
    parameters-url_of options (codes "up{job=\"a b\"}") (omega arith) (omega arith) (omega arith)
      (omega arith)

abbrev document : Document fake
document = record {
  start = codes "1790000000";
  end = codes "1790003600";
  step_s = pos 10;
  series = entries fake options queries;
}

export-answers_example :
    export fake options
    ≡ record { printed = lines fake options queries; written = ok (codes "out.json", document) }
unfolding int_of_text
export-answers_example = export-answers fake options

-- The line of a query with two points in one series.
two_points : line_of fake options (codes "up") (inr (2 ∷ [])) ≡ codes "up: 2 points, 1 series"
unfolding decimal
two_points = refl

-- Two points of a series, the second of which is NaN.
abbrev point_values : ℕ → Option (List (Num thousandths × Text))
point_values n = some (
    (int (pos 1790000000), codes "5")
    ∷ (float (thousandths.literal 17900000105 1), codes "NaN")
    ∷ [])

not_a_number : thousandths.Carrier
unfolding thousandths
not_a_number = Thousandths.nan

get-entries_example :
    get thousandths thousandths.truncate fake point_values
      (entries fake options queries)
      (codes "server_connections_active")
    ≡ ok (pos 1790000000 ∷ pos 1790000010 ∷ [], thousandths.of_int (pos 5) ∷ not_a_number ∷ [])
unfolding fake_fetch contains lookup text_eq thousandths int_of_text bytes quoted query_text
    not_a_number
get-entries_example =
    get-entries fake options thousandths thousandths.truncate point_values
      (codes "server_connections_active") refl

abbrev bound_samples : List Bound.Reads.Sample
bound_samples =
    record { hour = 17; minute = 14; second = 20; current = 5000; sock = 40 }
    ∷ record { hour = 17; minute = 15; second = 30; current = 5900; sock = 970 }
    ∷ record { hour = 17; minute = 15; second = 34; current = 5900; sock = 970 }
    ∷ []

abbrev short_freeze : Freeze
short_freeze = record {
  name = codes "mw_bound_60";
  start = codes "17:14:21";
  freeze = 60;
  conns = 250_003;
  title = codes "survived";
}

panel-samples_example :
    panel thousandths short_freeze (map row bound_samples)
    ≡ ok (record {
      curves =
          record { at = negsuc 0; current = pos 5000; sock = pos 40 }
          ∷ record { at = pos 69; current = pos 5900; sock = pos 970 }
          ∷ [];
      bound = bound_of thousandths 250_003;
      label =
          codes "connections x 4 KiB = "
          ++ (thousandths.fixed 0 (bound_of thousandths 250_003) ++ codes " MiB");
      title = codes "survived";
      green = true;
    })
unfolding contains ◌-ℤ◌
panel-samples_example =
    panel-samples 17 14 21 (omega arith) thousandths short_freeze bound_samples refl (omega arith)

-- A row that ends early, a size that is no number, and a good one.
abbrev broken : List Row
broken =
    ((codes "local", some (codes "17:14:22"))
      ∷ (codes "current_mib", some (codes "5"))
      ∷ (codes "sock_mib", none)
      ∷ [])
    ∷ ((codes "local", some (codes "17:14:22"))
        ∷ (codes "current_mib", some (codes "x"))
        ∷ (codes "sock_mib", some (codes "1"))
        ∷ [])
    ∷ ((codes "local", some (codes "17:14:23"))
        ∷ (codes "current_mib", some (codes "5"))
        ∷ (codes "sock_mib", some (codes "1"))
        ∷ [])
    ∷ []

load-reads_example :
    load sec ◌-ℤ◌ (codes "17:14:21") broken
    ≡ ok (record { at = pos 2; current = pos 5; sock = pos 1 } ∷ [])
unfolding lookup text_eq sec int_of_text Trace.point ◌-ℤ◌
load-reads_example = load-reads (codes "17:14:21") broken (
  ((codes "17:14:22", refl), (some (codes "5"), refl), (none, refl)),
  (
    ((codes "17:14:22", refl), (some (codes "x"), refl), (some (codes "1"), refl)),
    (((codes "17:14:23", refl), (some (codes "5"), refl), (some (codes "1"), refl)), tt),
  ),
)

abbrev quick : Stall.Test
quick = record {
  file = codes "quick.csv";
  start = codes "0:0:2";
  dur = 1;
  limit = 6144;
  res = codes "survived";
  capitals = codes "SURVIVED";
}

abbrev trace_row : Text → Text → Row
trace_row t c =
    (codes "local", some t)
    ∷ (codes "current_mib", some c)
    ∷ (codes "sock_mib", some (codes "1"))
    ∷ []

abbrev quick_rows : List Row
quick_rows =
    trace_row (codes "0:0:1") (codes "5000") ∷ trace_row (codes "0:0:3") (codes "5500") ∷ []

abbrev quick_points : List (Point thousandths.Carrier)
quick_points =
    record { at = thousandths.of_int (negsuc 0); current = pos 5000; sock = pos 1 }
    ∷ record { at = thousandths.of_int (pos 1); current = pos 5500; sock = pos 1 }
    ∷ []

panel-baseline_example :
    ((1 ≤ 2 / 4) × (Stall.panel thousandths quick quick_rows ≡ raised index_error))
    ⊎ ((2 / 4 < 1)
        × ((base : ℤ) × (p : Stall.Panel thousandths) × (Stall.panel thousandths quick quick_rows
              ≡ ok p)
            × (p.curves ≡ quick_points)
            × (p.line ≡ 6144)
            × ((p.green ≡ true) ↔ (codes "survived" ≡ codes "survived"))
            × (p.title ≡ heading thousandths quick (pos 6144 -ℤ base))
            × IsAtRank base (2 / 4) (pos 5000 ∷ [])))
unfolding lookup text_eq thousandths int_of_text split_at sec_float products ◌-ℤ◌ Trace.point
panel-baseline_example = panel-baseline thousandths quick quick_rows (
  ((codes "0:0:1", refl), (some (codes "5000"), refl), (some (codes "1"), refl)),
  (((codes "0:0:3", refl), (some (codes "5500"), refl), (some (codes "1"), refl)), tt),
)

title_example :
    Stall.title_of quick (pos 5000)
    ≡ codes "1 s freeze, limit 6144 MiB\nSURVIVED  (headroom 1144 MiB)"
unfolding Stall.title_of decimal ◌-ℤ◌
title_example = refl

abbrev zoom_samples : List Window.Sample
zoom_samples =
    record {
      hour = 11;
      minute = 33;
      second = 19;
      current = 1;
      anon = 1;
      sock = 1;
      kernel = 1;
      estab = 1;
    }
    ∷ record {
      hour = 11;
      minute = 33;
      second = 20;
      current = 2;
      anon = 2;
      sock = 2;
      kernel = 2;
      estab = 2;
    }
    ∷ record {
      hour = 11;
      minute = 34;
      second = 12;
      current = 3;
      anon = 3;
      sock = 3;
      kernel = 3;
      estab = 3;
    }
    ∷ record {
      hour = 11;
      minute = 34;
      second = 13;
      current = 4;
      anon = 4;
      sock = 4;
      kernel = 4;
      estab = 4;
    }
    ∷ []

zoom-samples_example :
    zoom thousandths (map Window.row zoom_samples)
    ≡ chart thousandths (
        record {
          hour = 11;
          minute = 33;
          second = 20;
          current = 2;
          anon = 2;
          sock = 2;
          kernel = 2;
          estab = 2;
        }
        ∷ record {
          hour = 11;
          minute = 34;
          second = 12;
          current = 3;
          anon = 3;
          sock = 3;
          kernel = 3;
          estab = 3;
        }
        ∷ [])
zoom-samples_example = zoom-samples thousandths zoom_samples (omega arith)
