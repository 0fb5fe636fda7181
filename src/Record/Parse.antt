-- ===== src/Record/Parse.antt =====
-- What record.py reads of other programs: the cgroup files (`read`, `kv`), the server's /metrics
-- page (`scrape_server`), Prometheus (`prom`, `prom_vector`) and Docker (`docker_state`,
-- `conntrack_count`). A response is the text or the decoded JSON that arrived, or `none` where the
-- request, the decoding or the lookup in the JSON raised.
pub mod Kv
pub mod Scrape
use millionws.Base.{true, false, not, Option, none, some, List, [], ◌∷◌, map, if◌then◌else◌}
use millionws.Base.Int.{ℤ}
use millionws.Base.Text.{Text, codes, is_empty, strip, split, splitlines, partition, text_eq}
use millionws.Base.Text.Integer.{int_of_text}
use millionws.Base.Dict.{Dict, lookup, insert}
use millionws.Base.Result.{Result, ok, raised, value_error, or_raise, ◌>>=◌}
use millionws.Record.Number.{Float}

-- `read(path)`, of what opening the file gives.
abbrev pub read : Option Text → Text
read none = []
read (some text) = text

-- The body of the loop in `kv`.
abbrev pub kv_line : Dict ℤ → List Text → Result (Dict ℤ)
kv_line out (key ∷ value ∷ []) = do
  n ← or_raise (int_of_text value) value_error
  ok (insert key n out)
kv_line out _ = ok out

unfoldable pub kv_lines : Dict ℤ → List Text → Result (Dict ℤ)
kv_lines out [] = ok out
kv_lines out (line ∷ lines) = elim (kv_line out (split line)) [
  | ok out' ↦ kv_lines out' lines
  | raised e ↦ raised e
]

unfoldable pub kv : Text → Result (Dict ℤ)
unfolding kv_lines splitlines
kv text = kv_lines [] (splitlines text)

-- `int(text.strip()) if text.strip() else None`
abbrev pub optional_int : Text → Result (Option ℤ)
optional_int text = elim (is_empty (strip text)) [
  | true ↦ ok none
  | false ↦ or_raise (int_of_text text) value_error >>= λ n. ok (some n)
]

-- `conntrack_count`, of what `docker exec` printed.
abbrev pub conntrack_count : Text → Result (Option ℤ)
conntrack_count stdout = optional_int stdout

-- `docker_state`, of what `docker inspect` printed.
unfoldable pub docker_state : Text → Text
docker_state stdout = elim (is_empty (strip stdout)) [ true ↦ codes "gone" | false ↦ strip stdout ]

-- `SERVER_FIELDS`: a metric and the field that it fills.
abbrev pub server_fields : Dict Text
server_fields =
    (codes "millionws_connections_active", codes "server_conns")
    ∷ (codes "go_goroutines", codes "goroutines")
    ∷ (codes "process_open_fds", codes "open_fds")
    ∷ (codes "process_resident_memory_bytes", codes "process_rss")
    ∷ (codes "go_memstats_heap_inuse_bytes", codes "go_heap_inuse")
    ∷ (codes "go_memstats_stack_inuse_bytes", codes "go_stack_inuse")
    ∷ (codes "millionws_connections_rejected_total", codes "rejected")
    ∷ []

-- A series of a Prometheus answer: its labels, and the text of its value.
pub record Series : Type 0 where
  pub metric : Dict Text
  pub value : Text

module _ (f : Float) where
  -- `dict.fromkeys(SERVER_FIELDS.values())`
  abbrev pub no_fields : Dict (Option f.Carrier)
  no_fields = map (λ (name, field). (field, none)) server_fields

  -- The loop of `scrape_server`. A value that is no number raises inside the `try`, which ends the
  -- loop and keeps what was stored.
  unfoldable pub scrape_lines : Dict (Option f.Carrier) → List Text → Dict (Option f.Carrier)
  scrape_lines out [] = out
  scrape_lines out (line ∷ lines) =
      let (name, value) = partition b' ' line in
      elim (lookup name server_fields) [
        | none ↦ scrape_lines out lines
        | some field ↦ elim (f.parse value) [
          | none ↦ out
          | some x ↦ scrape_lines (insert field (some x) out) lines
        ]
      ]

  unfoldable pub scrape_server : Option Text → Dict (Option f.Carrier)
  unfolding scrape_lines splitlines
  scrape_server none = no_fields
  scrape_server (some page) = scrape_lines no_fields (splitlines page)

  -- `prom(query)`, of the answer to the query. The value is parsed outside the `try`.
  unfoldable pub prom : Option (List Series) → Result (Option f.Carrier)
  prom none = ok none
  prom (some []) = ok none
  prom (some (s ∷ rest)) = do
    v ← or_raise (f.parse s.value) value_error
    ok (if not (f.eq v v) then none else some v)

  -- `prom_vector(query)` as the list of its items. The caller reads one label and the value of each
  -- series, and no two series of an answer have the same labels; a value that is no number empties
  -- the result.
  vector_items : List Series → Option (List (Dict Text × f.Carrier))
  vector_items [] = some []
  vector_items (s ∷ rest) = elim (f.parse s.value) [
    | none ↦ none
    | some v ↦ elim (vector_items rest) [ none ↦ none | some items ↦ some ((s.metric, v) ∷ items) ]
  ]

  unfoldable pub prom_vector : Option (List Series) → List (Dict Text × f.Carrier)
  unfolding vector_items
  prom_vector none = []
  prom_vector (some series) = elim (vector_items series) [ none ↦ [] | some items ↦ items ]
