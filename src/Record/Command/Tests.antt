-- ===== src/Record/Command/Tests.antt =====
-- Runs of record.py's commands on hosts that answer with fixed texts, and the theorems at them.
use millionws.Base.{
  ℕ, ◌*◌, ◌++◌, ◌≡◌, refl, false, Option, none, some, List, [], ◌∷◌, arith, if◌then◌else◌,
}
use millionws.Base.Int.{pos, ◌-ℤ◌, scale}
use millionws.Base.Text.{
  Text, codes, text_eq, starts_with, strip, split, splitlines, partition, contains, join,
}
use millionws.Base.Text.Integer.{decimal, int_of_text}
use millionws.Base.Dict.{lookup, insert, keys}
use millionws.Base.Sort.{sorted, insert_sorted, text_lt}
use millionws.Base.Sort.Increasing.{IsIncreasing}
use millionws.Base.Result.{ok, ◌>>=◌}
use millionws.Record.Number.{divide, num_sub}
use millionws.Record.Number.Thousandths.{thousandths, thousandths-IsFloat}
use millionws.Record.Parse.{Series, kv, docker_state, scrape_server, prom, prom_vector}
use millionws.Record.Sampler.{Host, Sample, Sampler, new_sampler, behind_colons, cpu_pct_of, sample}
use millionws.Record.Loop.{
  Args, Clock, ticks_per_second, no_growth, reason_text, run, run_loop, decide,
}
use millionws.Record.Summary.{
  Summary, write_summary, choose_peak, max_or_zero, is_live, is_oom_killed, count_errors,
  bytes_per_connection, average_cpu, per_conn,
}
use millionws.Record.Page.{error_items, error_list, grouped, page, idle_line}
use millionws.Record.Page.Errors.{error_items-write_summary}
use millionws.Record.Command.{written, sample_all, cmd_idle, cmd_run, finish}
use millionws.Record.Command.Cpu.{share, cmd_idle-share}
use millionws.Record.Command.Written.{Reports, cmd_run-Reports}
use millionws.Record.Command.Ends.{is_looping, cmd_run-ends}

abbrev number : ℕ → thousandths.Carrier
number n = thousandths.of_int (pos n)

abbrev blank : Sample thousandths
blank = record {
  t = number 0;
  state = codes "running false 0";
  server_conns = none;
  loadgen_conns = none;
  loadgen_target = none;
  cg_memory = none;
  cg_anon = none;
  cg_sock = none;
  cg_kernel = none;
  cg_slab = none;
  cg_percpu = none;
  cg_file = none;
  cg_peak = none;
  oom_kills = none;
  cpu_pct = none;
  pids = none;
  process_rss = none;
  go_heap_inuse = none;
  go_stack_inuse = none;
  goroutines = none;
  open_fds = none;
  dial_errors_15s = none;
  echo_rate = none;
  echo_p50_ms = none;
  echo_p99_ms = none;
  conntrack = none;
  rejected = none;
}

-- The clock of a round in which all readings are the same number of seconds.
abbrev clock : ℕ → Clock
clock s = record {
  at_best = ticks_per_second * s;
  at_reached = ticks_per_second * s;
  at_hold = ticks_per_second * s;
  at_plateau = ticks_per_second * s;
  at_limit = ticks_per_second * s;
}

-- A number of tenths.
abbrev tenth : ℕ → thousandths.Carrier
tenth n = thousandths.literal n 1

abbrev cgroup : Text
cgroup = codes "0::/box\n"

-- The files of a cgroup with 5000 bytes of memory and the given CPU time.
files : ℕ → Text → Option Text
unfolding text_eq
files usage path =
    if text_eq path (codes "/sys/fs/cgroup/box/memory.current")
    then some (codes "5000\n")
    else if text_eq path (codes "/sys/fs/cgroup/box/cpu.stat")
    then some (codes "usage_usec " ++ (decimal usage ++ codes "\n"))
    else none

-- A host with a number of connections, at a second.
abbrev host : ℕ → ℕ → ℕ → Host thousandths
host second usage conns = record {
  file = files usage;
  metrics_page = some (codes "millionws_connections_active " ++ decimal conns);
  query = λ q. none;
  conntrack_stdout = [];
  docker_stdout = codes "running false 0\n";
  time = number second;
  monotonic = number second;
}

abbrev sampled : ℕ → ℕ → Option thousandths.Carrier → Sample thousandths
sampled second conns pct = record blank {
  t = number second;
  server_conns = some (number conns);
  cg_memory = some (pos 5000);
  cpu_pct = pct;
}

new_box :
    new_sampler thousandths cgroup
    ≡ ok (record { cg = codes "/sys/fs/cgroup/box"; last_cpu = none })
unfolding new_sampler strip behind_colons starts_with
new_box = refl

sample_box :
    sample thousandths
      (host 2 500_000 40)
      (record { cg = codes "/sys/fs/cgroup/box"; last_cpu = some (pos 100_000, number 0) })
    ≡ ok (
      sampled 2 40 (some (number 20)),
      record { cg = codes "/sys/fs/cgroup/box"; last_cpu = some (pos 500_000, number 2) },
    )
unfolding sample thousandths files kv docker_state scrape_server cpu_pct_of strip splitlines split
    partition starts_with text_eq insert lookup int_of_text decimal prom divide scale ◌-ℤ◌
sample_box = refl

idle_run :
    cmd_idle thousandths cgroup (host 0 100_000 0) (host 2 500_000 0)
    ≡ ok (sampled 2 0 (some (number 20)), idle_line thousandths (sampled 2 0 (some (number 20))))
unfolding cmd_idle new_sampler behind_colons sample thousandths files kv docker_state scrape_server
    cpu_pct_of strip splitlines split partition starts_with text_eq insert lookup int_of_text
    decimal prom divide scale ◌-ℤ◌
idle_run = refl

cmd_idle-share_example :
    (sampled 2 0 (some (number 20))).cpu_pct
    ≡ some (share thousandths (pos 100_000, number 0) (pos 500_000, number 2))
unfolding files kv strip splitlines split text_eq insert lookup int_of_text decimal
cmd_idle-share_example =
    cmd_idle-share thousandths cgroup (host 0 100_000 0) (host 2 500_000 0)
      (record { cg = codes "/sys/fs/cgroup/box"; last_cpu = none }) (pos 100_000) (pos 500_000)
      new_box idle_run ((codes "usage_usec", pos 100_000) ∷ [], refl, refl)
      ((codes "usage_usec", pos 500_000) ∷ [], refl, refl)

abbrev args : Args
args = record { variant = codes "nbio"; hold = pos 2; plateau = pos 4; max = pos 8 }

abbrev hosts : List (Host thousandths × Clock)
hosts =
    (host 2 100_000 500, clock 2)
    ∷ (host 4 500_000 600, clock 4)
    ∷ (host 6 500_000 601, clock 6)
    ∷ (host 8 500_000 600, clock 8)
    ∷ []

abbrev run_rows : List (Sample thousandths)
run_rows =
    sampled 2 500 (some (number 5))
    ∷ sampled 4 600 (some (number 20))
    ∷ sampled 6 601 (some (number 0))
    ∷ sampled 8 600 (some (number 0))
    ∷ []

abbrev dial_errors : List Series
dial_errors =
    record { metric = (codes "reason", codes "timeout") ∷ []; value = codes "1200" }
    ∷ record { metric = (codes "reason", codes "refused") ∷ []; value = codes "7" }
    ∷ []

abbrev summary : Summary thousandths
summary = record {
  variant = codes "nbio";
  stop_reason = reason_text thousandths (no_growth (number 600) (pos 4));
  duration_s = pos 6;
  peak_connections = pos 600;
  loadgen_target = none;
  at_peak = sampled 8 600 (some (number 0));
  idle = sampled 2 0 (some (number 20));
  bytes_per_connection = record {
    cgroup_total = some (pos 0);
    cgroup_anon = none;
    kernel_sockets = none;
    kernel_other = none;
    kernel_slab = none;
    process_rss = none;
    go_heap = none;
  };
  cpu_pct_near_peak_avg = some (tenth 67);
  final_state = codes "running false 0";
  oom_killed = false;
  cgroup_memory_peak = pos 0;
  dial_errors_by_reason = (codes "timeout", pos 1200) ∷ (codes "refused", pos 7) ∷ [];
}

run_written :
    cmd_run thousandths args
      (ok (sampled 2 0 (some (number 20))))
      cgroup
      (host 0 0 0)
      0
      hosts
      (some dial_errors)
    ≡ written run_rows summary (page thousandths summary)
unfolding cmd_run sample_all new_sampler behind_colons sample thousandths files kv docker_state
    scrape_server cpu_pct_of strip splitlines split partition starts_with text_eq insert lookup
    int_of_text decimal prom divide scale ◌-ℤ◌ run run_loop decide write_summary choose_peak
    max_or_zero is_live is_oom_killed contains prom_vector count_errors bytes_per_connection
    average_cpu per_conn num_sub finish
run_written = refl

-- The run of the four rounds, with its time limit of eight seconds, and a round that is not taken.
cmd_run-ends_example :
    (is_looping thousandths (
        cmd_run thousandths args
          (ok (sampled 2 0 (some (number 20))))
          cgroup
          (host 0 0 0)
          0
          hosts
          (some dial_errors))
      ≡ false)
    × (cmd_run thousandths args
          (ok (sampled 2 0 (some (number 20))))
          cgroup
          (host 0 0 0)
          0
          (hosts ++ ((host 10 500_000 700, clock 10) ∷ []))
          (some dial_errors)
        ≡ cmd_run thousandths args
            (ok (sampled 2 0 (some (number 20))))
            cgroup
            (host 0 0 0)
            0
            hosts
            (some dial_errors))
cmd_run-ends_example =
    cmd_run-ends thousandths args (ok (sampled 2 0 (some (number 20)))) cgroup (host 0 0 0) 0 8
      hosts ((host 10 500_000 700, clock 10) ∷ []) (some dial_errors) refl (omega arith)
      (omega arith) (omega arith)

errors_listed : error_list summary.dial_errors_by_reason ≡ codes "refused 7, timeout 1,200"
unfolding error_list error_items grouped sorted insert_sorted text_lt text_eq join decimal
errors_listed = refl

cmd_run-Reports_example :
    (primed : Sample thousandths × Sampler thousandths) × (◌>>=◌
        (new_sampler thousandths cgroup)
        (sample thousandths (host 0 0 0))
      ≡ ok primed)
    × Reports thousandths args 0
        (sampled 2 0 (some (number 20)))
        run_rows
        summary
        (sample_all thousandths primed.1 hosts)
    × (page thousandths summary ≡ page thousandths summary)
unfolding is_live scrape_server thousandths splitlines partition text_eq insert lookup int_of_text
    decimal
cmd_run-Reports_example =
    cmd_run-Reports thousandths thousandths-IsFloat args (sampled 2 0 (some (number 20))) cgroup
      (host 0 0 0) 0 hosts (some dial_errors) (refl, (refl, (refl, (refl, tt)))) (ground arith)
      run_written

summary_made :
    write_summary thousandths args
      (sampled 2 0 (some (number 20)))
      run_rows
      summary.stop_reason
      (prom_vector thousandths (some dial_errors))
    ≡ ok summary
unfolding thousandths text_eq insert lookup int_of_text divide scale ◌-ℤ◌ write_summary choose_peak
    max_or_zero is_live is_oom_killed contains prom_vector count_errors bytes_per_connection
    average_cpu per_conn num_sub
summary_made = refl

error_items-write_summary_example :
    IsIncreasing (keys (error_items summary.dial_errors_by_reason))
    × ((reason : Text)
        → lookup reason (error_items summary.dial_errors_by_reason)
          ≡ lookup reason summary.dial_errors_by_reason)
error_items-write_summary_example =
    error_items-write_summary thousandths args (sampled 2 0 (some (number 20))) run_rows
      summary.stop_reason (prom_vector thousandths (some dial_errors)) summary_made
