-- ===== src/Evidence/Export.antt =====
-- scripts/evidence/export_prometheus.py: it asks Prometheus for each series of a run and writes the
-- answers, or the errors, in one document.
pub mod Answers
pub mod Request
use millionws.Base.{ℕ, ◌+◌, Option, none, some, List, [], ◌∷◌, ◌++◌, length, ◌⊎◌, inl, inr}
use millionws.Base.Int.{ℤ}
use millionws.Base.Text.{Text, codes}
use millionws.Base.Text.Integer.{decimal, int_of_text}
use millionws.Base.Dict.{Dict, insert}
use millionws.Base.Result.{Result, Exception, ok, raised, value_error, or_raise, ◌>>=◌}
use millionws.Evidence.Url.{urlencode}

-- The script's `host`, `start`, `end`, `out` and `step`.
pub record Options : Type 0 where
  pub host : Text
  pub start : Text
  pub end : Text
  pub out : Text
  pub step : Text

abbrev step_of : List Text → Text
step_of [] = codes "10"
step_of (step ∷ rest) = step

-- `host, start, end, out = sys.argv[1:5]` and `step`, of the arguments behind the script's name.
unfoldable pub options_of : List Text → Result Options
options_of (host ∷ start ∷ end ∷ out ∷ rest) =
    ok (record { host = host; start = start; end = end; out = out; step = step_of rest })
options_of _ = raised value_error

-- `Q`
abbrev pub queries : Dict Text
queries =
    (codes "loadgen_connections_active_total", codes "sum(loadgen_connections_active)")
    ∷ (codes "loadgen_connections_active_by_replica", codes "loadgen_connections_active")
    ∷ (codes "server_connections_active", codes "millionws_connections_active")
    ∷ (codes "server_connections_total", codes "millionws_connections_total")
    ∷ (codes "server_connections_rejected_total", codes "millionws_connections_rejected_total")
    ∷ (codes "server_upgrade_errors_total", codes "millionws_upgrade_errors_total")
    ∷ (codes "server_disconnections_total", codes "millionws_disconnections_total")
    ∷ (codes "loadgen_dials_rate_15s", codes "sum(rate(loadgen_dials_total[15s]))")
    ∷ (codes "loadgen_dial_errors_by_reason", codes "sum(loadgen_dial_errors_total) by (reason)")
    ∷ (codes "loadgen_disconnects_total", codes "sum(loadgen_disconnects_total)")
    ∷ (codes "loadgen_messages_sent_rate_15s", codes "sum(rate(loadgen_messages_sent_total[15s]))")
    ∷ (
      codes "loadgen_messages_received_rate_15s",
      codes "sum(rate(loadgen_messages_received_total[15s]))",
    )
    ∷ (
      codes "echo_latency_p50_seconds_30s",
      codes "histogram_quantile(0.5, sum(rate(loadgen_echo_latency_seconds_bucket[30s])) by (le))",
    )
    ∷ (
      codes "echo_latency_p99_seconds_30s",
      codes "histogram_quantile(0.99, sum(rate(loadgen_echo_latency_seconds_bucket[30s])) by (le))",
    )
    ∷ (
      codes "server_process_resident_memory_bytes",
      codes "process_resident_memory_bytes{job=\"server\"}",
    )
    ∷ (
      codes "server_process_start_time_seconds",
      codes "process_start_time_seconds{job=\"server\"}",
    )
    ∷ (codes "server_open_fds", codes "process_open_fds{job=\"server\"}")
    ∷ (codes "server_goroutines", codes "go_goroutines{job=\"server\"}")
    ∷ (codes "server_go_memory_limit_bytes", codes "millionws_go_memory_limit_bytes")
    ∷ (codes "server_go_heap_alloc_bytes", codes "go_memstats_alloc_bytes{job=\"server\"}")
    ∷ (codes "scrape_up", codes "up")
    ∷ []

-- `url`
unfoldable pub url_of : Options → Text → Result Text
unfolding urlencode
url_of options query = do
  parameters ← urlencode (
      (codes "query", query)
      ∷ (codes "start", options.start)
      ∷ (codes "end", options.end)
      ∷ (codes "step", options.step)
      ∷ [])
  ok (codes "http://" ++ (options.host ++ (codes ":9090/api/v1/query_range?" ++ parameters)))

-- The lines that are printed for a query.
abbrev pub report_error : Text → Text → Text
report_error name e = name ++ (codes " ERROR " ++ e)

abbrev pub report_points : Text → ℕ → ℕ → Text
report_points name points series =
    name
    ++ (codes ": "
        ++ (decimal points ++ (codes " points, " ++ (decimal series ++ codes " series"))))

-- What Prometheus is asked through: `d["data"]["result"]` of the answer to a URL, or the text of the
-- exception that the request, its decoding or the two lookups raise; and `len(r["values"])` of a
-- series, or the text of the exception that it raises.
pub record Prometheus : Type 1 where
  pub Series : Type 0
  pub fetch : Text → Text ⊎ List Series
  pub points : Series → Text ⊎ ℕ

module _ (p : Prometheus) where
  -- An entry of "series": the query with its result, or with its error.
  pub data Entry : Type 0 where
    result : Text → List p.Series → Entry
    error : Text → Text → Entry

  -- `sum(len(r['values']) for r in series)`
  unfoldable pub count_points : ℕ → List p.Series → Text ⊎ ℕ
  count_points total [] = inr total
  count_points total (r ∷ series) = elim (p.points r) [
    | inl e ↦ inl e
    | inr n ↦ count_points (total + n) series
  ]

  -- `res` and the lines that are printed.
  pub record Progress : Type 0 where
    pub res : Dict Entry
    pub printed : List Text

  -- `try` and `except` of a round. A result whose points cannot be counted is stored first, and
  -- replaced by the error.
  unfoldable pub store_answer : Text → Text → Text ⊎ List p.Series → Progress → Progress
  unfolding count_points insert
  store_answer name query (inl e) s = record s {
    res = insert name (error query e) s.res;
    printed = s.printed ++ (report_error name e ∷ []);
  }
  store_answer name query (inr series) s =
      let res = insert name (result query series) s.res in
      elim (count_points 0 series) [
        | inr n ↦ record s {
          res = res;
          printed = s.printed ++ (report_points name n (length series) ∷ []);
        }
        | inl e ↦ record s {
          res = insert name (error query e) res;
          printed = s.printed ++ (report_error name e ∷ []);
        }
      ]

  -- The rounds, and the exception that ends them; `url` is made outside of `try`.
  unfoldable pub ask_all : Options → List (Text × Text) → Progress → Progress × Option Exception
  unfolding store_answer url_of
  ask_all options [] s = (s, none)
  ask_all options ((name, query) ∷ rest) s = elim (url_of options query) [
    | raised e ↦ (s, some e)
    | ok url ↦ ask_all options rest (store_answer name query (p.fetch url) s)
  ]

  -- What is dumped to `out`.
  pub record Document : Type 0 where
    pub start : Text
    pub end : Text
    pub step_s : ℤ
    pub series : Dict Entry

  pub record Outcome : Type 0 where
    pub printed : List Text
    -- the file and what it holds; `int(step)` comes before the file is opened
    pub written : Result (Text × Document)

  -- `json.dump(…)`, where the rounds have come to their end.
  abbrev pub dump : Options → Dict Entry → Option Exception → Result (Text × Document)
  dump options res (some e) = raised e
  dump options res none = do
    step ← or_raise (int_of_text options.step) value_error
    ok (
      options.out,
      record { start = options.start; end = options.end; step_s = step; series = res },
    )

  unfoldable pub export : Options → Outcome
  unfolding ask_all int_of_text
  export options =
      let (s, ended) = ask_all options queries (record { res = []; printed = [] }) in
      record { printed = s.printed; written = dump options s.res ended }
