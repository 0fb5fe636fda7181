-- ===== src/Record/Summary.antt =====
-- `per_conn` and `write_summary` of record.py: which sample counts as the peak, and the figures of
-- summary.json. `idle` is the sample that `cmd_idle` stored in idle.json.
pub mod Peak
pub mod Errors
pub mod Figures
pub mod Killed
use millionws.Base.{
  ℕ, Bool, true, false, ◌&&◌, Option, none, some, List, [], ◌∷◌, ◌++◌, map, length, filter, last?,
  if◌then◌else◌,
}
use millionws.Base.Int.{ℤ, pos, ltb_ℤ}
use millionws.Base.Text.{Text, codes, contains}
use millionws.Base.Dict.{Dict, lookup, insert}
use millionws.Base.Result.{Result, ok, raised, index_error, or_raise, ◌>>=◌}
use millionws.Record.Number.{Float, Num, int, float, to_float, truthy, zero_of, num_sub, divide}
use millionws.Record.Sampler.{Sample}
use millionws.Record.Loop.{Args, conns_of}

-- `max(xs)`, of ints from `m` on.
abbrev max_from_ℤ : ℤ → List ℤ → ℤ
max_from_ℤ m [] = m
max_from_ℤ m (n ∷ ns) = max_from_ℤ (if ltb_ℤ m n then n else m) ns

-- `x or 0`, of an int or None.
abbrev or_zero_ℤ : Option ℤ → ℤ
or_zero_ℤ none = pos 0
or_zero_ℤ (some n) = n

-- `max((r["cg_peak"] or 0) for r in rows)`
abbrev max_peak : List ℤ → ℤ
max_peak [] = pos 0
max_peak (n ∷ ns) = max_from_ℤ n ns

abbrev is_some : Option ℤ → Bool
is_some none = false
is_some (some n) = true

abbrev first? {ℓ} : {A : Type ℓ} → List A → Option A
first? [] = none
first? (x ∷ xs) = some x

-- `dict(k).get("reason", "?")`
abbrev pub reason_label : Option Text → Text
reason_label none = codes "?"
reason_label (some reason) = reason

-- `" true " in f" {state} "`
unfoldable pub is_oom_killed : Text → Bool
unfolding contains
is_oom_killed state = contains (codes " true ") (b' ' ∷ (state ++ (b' ' ∷ [])))

module _ (f : Float) where
  unfoldable pub per_conn : Option (Num f) → Option (Num f) → f.Carrier → Result (Option ℤ)
  unfolding num_sub divide
  per_conn none idle conns = ok none
  per_conn (some value) none conns = ok none
  per_conn (some value) (some idle) conns = elim (truthy f conns) [
    | false ↦ ok none
    | true ↦ do
      x ← divide f (to_float f (num_sub f value idle)) conns
      n ← f.round_int x
      ok (some n)
  ]

  abbrev has_answer : Option f.Carrier → Bool
  has_answer none = false
  has_answer (some x) = truthy f x

  -- `r["server_conns"] and r["cg_memory"] is not None`
  unfoldable pub is_live : Sample f → Bool
  is_live r = has_answer r.server_conns && is_some r.cg_memory

  -- `max(xs)`, from the first value on.
  unfoldable pub max_from : f.Carrier → List f.Carrier → f.Carrier
  max_from m [] = m
  max_from m (x ∷ xs) = max_from (if f.lt m x then x else m) xs

  -- `max(xs, default=0)`
  unfoldable pub max_or_zero : List f.Carrier → f.Carrier
  unfolding max_from
  max_or_zero [] = zero_of f
  max_or_zero (x ∷ xs) = max_from x xs

  -- `r["server_conns"] >= share * top`
  abbrev pub is_near : ℕ → f.Carrier → Sample f → Bool
  is_near share top r = f.le (f.mul (f.literal share 3) top) (conns_of f r)

  -- `top`
  abbrev pub top_of : List (Sample f) → f.Carrier
  top_of live = max_or_zero (map (conns_of f) live)

  -- `peak`, of `live` and `rows`.
  unfoldable pub peak_of : List (Sample f) → List (Sample f) → Result (Sample f)
  peak_of [] rows = or_raise (last? rows) index_error
  peak_of (r ∷ rs) rows =
      or_raise (last? (filter (is_near 995 (top_of (r ∷ rs))) (r ∷ rs))) index_error

  unfoldable pub choose_peak : List (Sample f) → Result (Sample f)
  unfolding peak_of
  choose_peak rows = peak_of (filter is_live rows) rows

  -- The items of `err`.
  unfoldable pub count_errors : Dict ℤ → List (Dict Text × f.Carrier) → Result (Dict ℤ)
  unfolding lookup insert
  count_errors err [] = ok err
  count_errors err ((labels, v) ∷ items) = elim (truthy f v) [
    | false ↦ count_errors err items
    | true ↦ elim (f.truncate v) [
      | raised e ↦ raised e
      | ok n ↦ count_errors (insert (reason_label (lookup (codes "reason") labels)) n err) items
    ]
  ]

  pub record PerConnection : Type 0 where
    pub cgroup_total : Option ℤ
    pub cgroup_anon : Option ℤ
    pub kernel_sockets : Option ℤ
    pub kernel_other : Option ℤ
    pub kernel_slab : Option ℤ
    pub process_rss : Option ℤ
    pub go_heap : Option ℤ

  -- `at_peak` and `idle` are the samples whose values the two entries copy.
  pub record Summary : Type 0 where
    pub variant : Text
    pub stop_reason : Text
    pub duration_s : ℤ
    pub peak_connections : ℤ
    pub loadgen_target : Option f.Carrier
    pub at_peak : Sample f
    pub idle : Sample f
    pub bytes_per_connection : PerConnection
    pub cpu_pct_near_peak_avg : Option f.Carrier
    pub final_state : Text
    pub oom_killed : Bool
    pub cgroup_memory_peak : ℤ
    pub dial_errors_by_reason : Dict ℤ

  abbrev ints : Option ℤ → Option (Num f)
  ints none = none
  ints (some n) = some (int n)

  abbrev floats : Option f.Carrier → Option (Num f)
  floats none = none
  floats (some x) = some (float x)

  -- `summary["bytes_per_connection"]`
  unfoldable pub bytes_per_connection : Sample f → Sample f → f.Carrier → Result PerConnection
  unfolding per_conn
  bytes_per_connection peak idle conns = do
    total ← per_conn (ints peak.cg_memory) (ints idle.cg_memory) conns
    anon ← per_conn (ints peak.cg_anon) (ints idle.cg_anon) conns
    sockets ← per_conn (ints peak.cg_sock) (ints idle.cg_sock) conns
    other ← per_conn (ints peak.cg_kernel) (ints idle.cg_kernel) conns
    slab ← per_conn (ints peak.cg_slab) (ints idle.cg_slab) conns
    rss ← per_conn (floats peak.process_rss) (floats idle.process_rss) conns
    heap ← per_conn (floats peak.go_heap_inuse) (floats idle.go_heap_inuse) conns
    ok (record {
      cgroup_total = total;
      cgroup_anon = anon;
      kernel_sockets = sockets;
      kernel_other = other;
      kernel_slab = slab;
      process_rss = rss;
      go_heap = heap;
    })

  abbrev cpu_values : List (Sample f) → List f.Carrier
  cpu_values [] = []
  cpu_values (r ∷ rs) = elim r.cpu_pct [ none ↦ cpu_values rs | some x ↦ x ∷ cpu_values rs ]

  -- `round(sum(cpu) / len(cpu), 1) if cpu else None`
  unfoldable pub average_cpu : List f.Carrier → Result (Option f.Carrier)
  unfolding divide
  average_cpu [] = ok none
  average_cpu (x ∷ xs) = do
    mean ← divide f (f.sum (x ∷ xs)) (f.of_int (pos (length (x ∷ xs))))
    ok (some (f.round_1 mean))

  unfoldable pub write_summary :
      Args → Sample f → List (Sample f) → Text → List (Dict Text × f.Carrier) → Result Summary
  write_summary args idle rows reason errors = do
    peak ← choose_peak rows
    let conns = conns_of f peak
    last ← or_raise (last? rows) index_error
    first ← or_raise (first? rows) index_error
    err ← count_errors [] errors
    duration ← f.round_int (f.sub last.t first.t)
    count ← f.truncate conns
    bytes ← bytes_per_connection peak idle conns
    cpu ← average_cpu (cpu_values (filter (is_near 980 conns) (filter is_live rows)))
    ok (record {
      variant = args.variant;
      stop_reason = reason;
      duration_s = duration;
      peak_connections = count;
      loadgen_target = peak.loadgen_target;
      at_peak = peak;
      idle = idle;
      bytes_per_connection = bytes;
      cpu_pct_near_peak_avg = cpu;
      final_state = last.state;
      oom_killed = is_oom_killed last.state;
      cgroup_memory_peak = max_peak (map (λ r. or_zero_ℤ r.cg_peak) rows);
      dial_errors_by_reason = err;
    })
