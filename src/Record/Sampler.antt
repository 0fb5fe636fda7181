-- ===== src/Record/Sampler.antt =====
-- `class Sampler` of record.py: how it finds the container's cgroup, and what one call of `sample`
-- reads and computes.
use millionws.Base.{Option, none, some, List, [], ◌∷◌, ◌++◌, if◌then◌else◌}
use millionws.Base.Int.{ℤ, pos, ◌-ℤ◌, scale}
use millionws.Base.Text.{Text, codes, strip, starts_with}
use millionws.Base.Dict.{Dict, lookup}
use millionws.Base.Result.{Result, ok, index_error, or_raise, ◌>>=◌}
use millionws.Record.Number.{Float, divide}
use millionws.Record.Parse.{
  Series, read, kv, optional_int, conntrack_count, docker_state, scrape_server, prom,
}

abbrev drop_one : Text → Text
drop_one [] = []
drop_one (d ∷ t) = t

-- The part of a text behind the first "::", `s.split("::", 1)[1]`.
unfoldable pub behind_colons : Text → Option Text
unfolding starts_with
behind_colons [] = none
behind_colons (c ∷ s) =
    let rest = behind_colons s in
    if starts_with (c ∷ s) (codes "::") then some (drop_one s) else rest

-- `QUERIES`
abbrev pub loadgen_conns_query : Text
loadgen_conns_query = codes "sum(loadgen_connections_active)"

abbrev pub loadgen_target_query : Text
loadgen_target_query = codes "sum(loadgen_connections_target)"

abbrev pub dial_errors_query : Text
dial_errors_query = codes "sum(increase(loadgen_dial_errors_total[15s]))"

abbrev pub echo_rate_query : Text
echo_rate_query = codes "sum(rate(loadgen_messages_received_total[30s]))"

abbrev pub echo_p50_query : Text
echo_p50_query =
    codes
      "1000 * histogram_quantile(0.50, sum by (le) (rate(loadgen_echo_latency_seconds_bucket[30s])))"

abbrev pub echo_p99_query : Text
echo_p99_query =
    codes
      "1000 * histogram_quantile(0.99, sum by (le) (rate(loadgen_echo_latency_seconds_bucket[30s])))"

module _ (f : Float) where
  -- The outside as one call of `sample` meets it.
  pub record Host : Type 0 where
    -- A file's text, or `none` where opening it fails.
    pub file : Text → Option Text
    pub metrics_page : Option Text
    pub query : Text → Option (List Series)
    pub conntrack_stdout : Text
    pub docker_stdout : Text
    -- `round(time.time(), 1)`, and `time.monotonic()`.
    pub time : f.Carrier
    pub monotonic : f.Carrier

  -- The dict that `sample` returns, key by key in the order of `FIELDS`.
  pub record Sample : Type 0 where
    pub t : f.Carrier
    pub state : Text
    pub server_conns : Option f.Carrier
    pub loadgen_conns : Option f.Carrier
    pub loadgen_target : Option f.Carrier
    pub cg_memory : Option ℤ
    pub cg_anon : Option ℤ
    pub cg_sock : Option ℤ
    pub cg_kernel : Option ℤ
    pub cg_slab : Option ℤ
    pub cg_percpu : Option ℤ
    pub cg_file : Option ℤ
    pub cg_peak : Option ℤ
    pub oom_kills : Option ℤ
    pub cpu_pct : Option f.Carrier
    pub pids : Option ℤ
    pub process_rss : Option f.Carrier
    pub go_heap_inuse : Option f.Carrier
    pub go_stack_inuse : Option f.Carrier
    pub goroutines : Option f.Carrier
    pub open_fds : Option f.Carrier
    pub dial_errors_15s : Option f.Carrier
    pub echo_rate : Option f.Carrier
    pub echo_p50_ms : Option f.Carrier
    pub echo_p99_ms : Option f.Carrier
    pub conntrack : Option ℤ
    pub rejected : Option f.Carrier

  -- `self`: the directory of the cgroup, and `last_cpu`, the CPU time in microseconds with the time
  -- of the reading.
  pub record Sampler : Type 0 where
    pub cg : Text
    pub last_cpu : Option (ℤ × f.Carrier)

  -- `Sampler(cid)`, of the text of /proc/PID/cgroup.
  unfoldable pub new_sampler : Text → Result Sampler
  unfolding behind_colons strip
  new_sampler text = do
    rel ← or_raise (behind_colons (strip text)) index_error
    ok (record { cg = codes "/sys/fs/cgroup" ++ rel; last_cpu = none })

  -- `s["cpu_pct"]`
  unfoldable pub cpu_pct_of :
      Option (ℤ × f.Carrier) → Option ℤ → f.Carrier → Result (Option f.Carrier)
  unfolding divide scale ◌-ℤ◌
  cpu_pct_of (some (u, t)) (some usage) now = do
    x ←
        divide f (f.of_int (scale 100 (usage -ℤ u)))
          (f.mul (f.sub now t) (f.of_int (pos 1_000_000)))
    ok (some (f.round_1 x))
  cpu_pct_of none (some usage) now = ok none
  cpu_pct_of last none now = ok none

  abbrev pub next_cpu : Option (ℤ × f.Carrier) → Option ℤ → f.Carrier → Option (ℤ × f.Carrier)
  next_cpu last (some usage) now = some (usage, now)
  next_cpu last none now = last

  -- A field of the /metrics page, which `scrape_server` always sets.
  abbrev pub field : Text → Dict (Option f.Carrier) → Option f.Carrier
  field name d = elim (lookup name d) [ none ↦ none | some v ↦ v ]

  unfoldable pub sample : Host → Sampler → Result (Sample × Sampler)
  sample h self =
      let path = λ (name : Text). read (h.file (self.cg ++ name)) in
      let server = scrape_server f h.metrics_page in
      do
        stat ← kv (path (codes "/memory.stat"))
        cur ← optional_int (path (codes "/memory.current"))
        peak ← optional_int (path (codes "/memory.peak"))
        events ← kv (path (codes "/memory.events"))
        pids ← optional_int (path (codes "/pids.current"))
        cpu ← kv (path (codes "/cpu.stat"))
        let usage = lookup (codes "usage_usec") cpu
        pct ← cpu_pct_of self.last_cpu usage h.monotonic
        conns ← prom f (h.query loadgen_conns_query)
        target ← prom f (h.query loadgen_target_query)
        errors ← prom f (h.query dial_errors_query)
        rate ← prom f (h.query echo_rate_query)
        p50 ← prom f (h.query echo_p50_query)
        p99 ← prom f (h.query echo_p99_query)
        tracked ← conntrack_count h.conntrack_stdout
        ok (
          record {
            t = h.time;
            state = docker_state h.docker_stdout;
            server_conns = field (codes "server_conns") server;
            loadgen_conns = conns;
            loadgen_target = target;
            cg_memory = cur;
            cg_anon = lookup (codes "anon") stat;
            cg_sock = lookup (codes "sock") stat;
            cg_kernel = lookup (codes "kernel") stat;
            cg_slab = lookup (codes "slab") stat;
            cg_percpu = lookup (codes "percpu") stat;
            cg_file = lookup (codes "file") stat;
            cg_peak = peak;
            oom_kills = lookup (codes "oom_kill") events;
            cpu_pct = pct;
            pids = pids;
            process_rss = field (codes "process_rss") server;
            go_heap_inuse = field (codes "go_heap_inuse") server;
            go_stack_inuse = field (codes "go_stack_inuse") server;
            goroutines = field (codes "goroutines") server;
            open_fds = field (codes "open_fds") server;
            dial_errors_15s = errors;
            echo_rate = rate;
            echo_p50_ms = p50;
            echo_p99_ms = p99;
            conntrack = tracked;
            rejected = field (codes "rejected") server;
          },
          record self { last_cpu = next_cpu self.last_cpu usage h.monotonic },
        )
