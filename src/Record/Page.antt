-- ===== src/Record/Page.antt =====
-- The page summary.md that `write_summary` of record.py writes behind summary.json, line by line, and
-- the line that `cmd_idle` prints.
pub mod Errors
use millionws.Base.{
  ℕ, zero, suc, ◌+◌, ◌*◌, ◌/◌, ◌%◌, ◌^◌, Bool, ◌&&◌, ◌||◌, Option, none, some, List, [], ◌∷◌, ◌++◌,
  map, if◌then◌else◌, ltb,
}
use millionws.Base.Int.{ℤ, pos, negsuc, ltb_ℤ}
use millionws.Base.Text.{Text, codes, text_eq, is_empty, join}
use millionws.Base.Text.Integer.{decimal}
use millionws.Base.Sort.{text_lt, sorted}
use millionws.Base.Dict.{Dict}
use millionws.Record.Number.{Float, Num, int, float, to_float, truthy}
use millionws.Record.Sampler.{Sample}
use millionws.Record.Loop.{conns_of}
use millionws.Record.Summary.{PerConnection, Summary}

-- The three digits of a number below 1000.
abbrev three_digits : ℕ → Text
three_digits n = (b'0' + n / 100) ∷ (b'0' + n / 10 % 10) ∷ (b'0' + n % 10) ∷ []

-- `f"{n:,}"`, on fuel: a number has fewer digits than its value and one.
grouped_from : ℕ → ℕ → Text
unfolding decimal
grouped_from zero n = []
grouped_from (suc fuel) n =
    let rest = grouped_from fuel (n / 1000) in
    if ltb n 1000 then decimal n else rest ++ (b',' ∷ three_digits (n % 1000))

unfoldable pub grouped : ℕ → Text
unfolding grouped_from
grouped n = grouped_from (suc n) n

abbrev pub grouped_ℤ : ℤ → Text
grouped_ℤ (pos n) = grouped n
grouped_ℤ (negsuc n) = b'-' ∷ grouped (suc n)

-- The order of a dict's items, as tuples.
abbrev pub item_lt : Text × ℤ → Text × ℤ → Bool
item_lt (k, v) (l, w) = text_lt k l || (text_eq k l && ltb_ℤ v w)

-- `sorted(err.items())`
unfoldable pub error_items : Dict ℤ → List (Text × ℤ)
unfolding sorted
error_items err = sorted item_lt err

-- `", ".join(…) or "none"`
unfoldable pub error_list : Dict ℤ → Text
unfolding join
error_list err =
    let listed = join (codes ", ") (map (λ (k, v). k ++ (b' ' ∷ grouped_ℤ v)) (error_items err)) in
    if is_empty listed then codes "none" else listed

module _ (f : Float) where
  unfoldable pub fmt_bytes : Option (Num f) → Text
  fmt_bytes none = codes "n/a"
  fmt_bytes (some n) =
      f.fixed 1 (f.quotient (to_float f n) (f.of_int (pos (2 ^ 20)))) ++ codes " MiB"

  abbrev pub int_bytes : Option ℤ → Text
  int_bytes none = fmt_bytes none
  int_bytes (some n) = fmt_bytes (some (int n))

  abbrev pub float_bytes : Option f.Carrier → Text
  float_bytes none = fmt_bytes none
  float_bytes (some x) = fmt_bytes (some (float x))

  -- `kb`
  abbrev pub kb : Option ℤ → Text
  kb none = codes "n/a"
  kb (some v) = f.plain 1 (f.quotient (f.of_int v) (f.of_int (pos 1024))) ++ codes " KiB"

  -- `num`
  abbrev pub num : Option f.Carrier → Text
  num none = codes "n/a"
  num (some v) = f.fixed 0 v

  -- `summary["cpu_pct_near_peak_avg"] or "n/a"`
  abbrev pub cpu_or_none : Option f.Carrier → Text
  cpu_or_none none = codes "n/a"
  cpu_or_none (some x) = if truthy f x then f.repr x else codes "n/a"

  -- `f"| {name} | {idle} | {peak} |"`
  abbrev pub line_of_two : Text → Text → Text → Text
  line_of_two name idle peak =
      codes "| " ++ (name ++ (codes " | " ++ (idle ++ (codes " | " ++ (peak ++ codes " |")))))

  -- `f"| {name} | {value} |"`
  abbrev pub line_of_one : Text → Text → Text
  line_of_one name value = codes "| " ++ (name ++ (codes " | " ++ (value ++ codes " |")))

  abbrev pub metric_lines : Summary f → List Text
  metric_lines s =
      let idle = s.idle in
      let peak = s.at_peak in
      codes "| Metric | Idle | At peak |"
      ∷ codes "| --- | --- | --- |"
      ∷ (codes "| Connections | 0 | " ++ (num (some (conns_of f peak)) ++ codes " |"))
      ∷ line_of_two (codes "Container memory (cgroup)") (int_bytes idle.cg_memory)
          (int_bytes peak.cg_memory)
      ∷ line_of_two (codes "Kernel memory (socket structs, epoll, slab)") (int_bytes idle.cg_kernel)
          (int_bytes peak.cg_kernel)
      ∷ line_of_two (codes "Kernel socket buffers") (int_bytes idle.cg_sock)
          (int_bytes peak.cg_sock)
      ∷ line_of_two (codes "Process RSS") (float_bytes idle.process_rss)
          (float_bytes peak.process_rss)
      ∷ line_of_two (codes "Go heap in use") (float_bytes idle.go_heap_inuse)
          (float_bytes peak.go_heap_inuse)
      ∷ line_of_two (codes "Goroutines") (num idle.goroutines) (num peak.goroutines)
      ∷ line_of_two (codes "Open file descriptors") (num idle.open_fds) (num peak.open_fds)
      ∷ (codes "| CPU, average near peak | | "
          ++ (cpu_or_none s.cpu_pct_near_peak_avg ++ codes "% of one core |"))
      ∷ (codes "| Echo latency p50 / p99 | | "
          ++ (num peak.echo_p50_ms ++ (codes " ms / " ++ (num peak.echo_p99_ms ++ codes " ms |"))))
      ∷ []

  abbrev pub connection_lines : PerConnection f → List Text
  connection_lines b =
      codes "Memory per connection, (peak - idle) / connections:"
      ∷ codes ""
      ∷ codes "| Source | Per connection |"
      ∷ codes "| --- | --- |"
      ∷ line_of_one (codes "Container total (cgroup)") (kb b.cgroup_total)
      ∷ line_of_one (codes "Anonymous memory") (kb b.cgroup_anon)
      ∷ line_of_one (codes "Kernel memory (socket structs, epoll, slab)") (kb b.kernel_other)
      ∷ line_of_one (codes "of which slab objects") (kb b.kernel_slab)
      ∷ line_of_one (codes "Kernel socket buffers") (kb b.kernel_sockets)
      ∷ line_of_one (codes "Process RSS") (kb b.process_rss)
      ∷ line_of_one (codes "Go heap") (kb b.go_heap)
      ∷ []

  -- `lines`
  unfoldable pub page : Summary f → List Text
  page s =
      (codes "# " ++ s.variant)
      ∷ codes ""
      ∷ (codes "Stopped because: " ++ (s.stop_reason ++ codes "."))
      ∷ codes ""
      ∷ (metric_lines s
          ++ (codes ""
              ∷ (connection_lines s.bytes_per_connection
                  ++ (codes ""
                      ∷ (codes "Final container state: `"
                          ++ (s.final_state
                              ++ (codes
                                    "` (status, OOM-killed, exit code). Highest cgroup memory during the run: "
                                  ++ (int_bytes (some s.cgroup_memory_peak) ++ codes "."))))
                      ∷ codes ""
                      ∷ (codes "Dial errors by reason: "
                          ++ (error_list s.dial_errors_by_reason ++ codes "."))
                      ∷ codes ""
                      ∷ []))))

  -- `f"{x}"` of a float or None
  abbrev pub repr_or_none : Option f.Carrier → Text
  repr_or_none none = codes "None"
  repr_or_none (some x) = f.repr x

  -- What `cmd_idle` prints of its sample.
  unfoldable pub idle_line : Sample f → Text
  idle_line s =
      codes "idle: cgroup "
      ++ (int_bytes s.cg_memory
          ++ (codes ", rss "
              ++ (float_bytes s.process_rss
                  ++ (codes ", goroutines "
                      ++ (repr_or_none s.goroutines
                          ++ (codes ", fds " ++ repr_or_none s.open_fds))))))
