-- ===== src/Compare/Tests.antt =====
-- Runs of compare.py over decimal numbers, and the theorems at concrete data.
use millionws.Base.{
  ℕ, ◌≡◌, refl, false, Option, none, some, List, [], ◌∷◌, ◌++◌, true, All, Any, length, ◌↔◌,
}
use millionws.Base.Int.{ℤ, pos, ◌≤ℤ◌, ◌+ℤ◌}
use millionws.Base.Text.{Text, codes, text_eq, member, join}
use millionws.Base.Text.Integer.{decimal}
use millionws.Base.Dict.{Dict, lookup, insert}
use millionws.Base.Result.{Result, ok}
use millionws.Record.Number.{int, float}
use millionws.Record.Number.Thousandths.{thousandths}
use millionws.Record.Sampler.{Sample}
use millionws.Record.Loop.{Args, Reason, no_growth, reason_text}
use millionws.Record.Summary.{
  Summary, write_summary, is_oom_killed, choose_peak, is_live, max_or_zero, count_errors,
  bytes_per_connection, average_cpu,
}
use millionws.Base.Sort.Increasing.{IsIncreasing}
use millionws.Base.Sort.Rank.{IsAtRank}
use millionws.Compare.{
  Run, append_to, load, stat, median, num_eq, least, greatest, count, stop_label, header, row, main,
}
use millionws.Compare.Labels.{stop_label-write_summary}
use millionws.Compare.Stops.{IsLabel, row-IsIncreasing}
use millionws.Compare.Table.{main-table}
use millionws.Compare.Middle.{IsMiddle, stat-IsMiddle}
use millionws.Compare.Middle.Even.{stat-IsAtRank}
use millionws.Record.Summary.Errors.{Counts, write_summary-Counts}
use millionws.Compare.Range.{Spans, column, shown, stat-shown}

abbrev number : ℕ → thousandths.Carrier
number n = thousandths.of_int (pos n)

abbrev peak : Sample thousandths
peak = record {
  t = number 0;
  state = codes "running false 0";
  server_conns = some (number 10);
  loadgen_conns = none;
  loadgen_target = none;
  cg_memory = some (pos 5000);
  cg_anon = none;
  cg_sock = none;
  cg_kernel = none;
  cg_slab = none;
  cg_percpu = none;
  cg_file = none;
  cg_peak = none;
  oom_kills = none;
  cpu_pct = none;
  pids = none;
  process_rss = none;
  go_heap_inuse = none;
  go_stack_inuse = none;
  goroutines = none;
  open_fds = none;
  dial_errors_15s = none;
  echo_rate = none;
  echo_p50_ms = none;
  echo_p99_ms = none;
  conntrack = none;
  rejected = none;
}

abbrev run_of : Text → ℕ → Run thousandths
run_of variant n = record {
  variant = variant;
  stop_reason = codes "time limit of 100s reached";
  duration_s = pos 100;
  peak_connections = pos n;
  loadgen_target = none;
  at_peak = peak;
  idle = peak;
  bytes_per_connection = record {
    cgroup_total = some (pos 5028);
    cgroup_anon = none;
    kernel_sockets = none;
    kernel_other = none;
    kernel_slab = none;
    process_rss = none;
    go_heap = none;
  };
  cpu_pct_near_peak_avg = none;
  final_state = codes "running false 0";
  oom_killed = false;
  cgroup_memory_peak = pos 0;
  dial_errors_by_reason = [];
}

-- Four directories, one of them without a summary.
abbrev dirs : List (Option (Result (Run thousandths)))
dirs =
    some (ok (run_of (codes "nbio") 190))
    ∷ none
    ∷ some (ok (run_of (codes "gorilla") 40))
    ∷ some (ok (run_of (codes "nbio") 193))
    ∷ []

abbrev groups : Dict (List (Run thousandths))
groups =
    (codes "nbio", run_of (codes "nbio") 190 ∷ run_of (codes "nbio") 193 ∷ [])
    ∷ (codes "gorilla", run_of (codes "gorilla") 40 ∷ [])
    ∷ []

loads : load thousandths dirs ≡ ok groups
unfolding load append_to text_eq
loads = refl

main-table_example :
    main thousandths dirs
    ≡ ok (
        header thousandths
        ++ (row thousandths
              (codes "nbio")
              (run_of (codes "nbio") 190 ∷ run_of (codes "nbio") 193 ∷ [])
            ∷ row thousandths (codes "gorilla") (run_of (codes "gorilla") 40 ∷ [])
            ∷ []))
unfolding text_eq member
main-table_example = main-table thousandths dirs

abbrev two_runs : List (Run thousandths)
two_runs = run_of (codes "nbio") 190 ∷ record (run_of (codes "nbio") 9) { oom_killed = true } ∷ []

row-IsIncreasing_example :
    (cells : List Text) × (stops : List Text) × (length cells ≡ 8)
    × (row thousandths (codes "nbio") two_runs
        ≡ codes "| "
          ++ (join (codes " | ") (cells ++ (join (codes "; ") stops ∷ [])) ++ codes " |"))
    × IsIncreasing stops
    × ((label : Text) → (member label stops ≡ true) ↔ Any (IsLabel thousandths label) two_runs)
row-IsIncreasing_example = row-IsIncreasing thousandths (codes "nbio") two_runs

stat_three :
    stat thousandths (column thousandths (pos 190 ∷ pos 193 ∷ pos 185 ∷ [])) (count thousandths)
    ≡ codes "190 (185 to 193)"
unfolding stat median count num_eq least greatest decimal thousandths
stat_three = refl

stat-shown_example :
    (low : ℤ) × (high : ℤ) × (stat thousandths
        (column thousandths (pos 190 ∷ pos 193 ∷ []))
        (count thousandths)
      ≡ shown thousandths
          (count thousandths (median thousandths (int (pos 190)) (int (pos 193) ∷ [])))
          low
          high
          (count thousandths))
    × All (λ k. (low ≤ℤ k) × (k ≤ℤ high)) (pos 190 ∷ pos 193 ∷ [])
    × Any (λ k. k ≡ low) (pos 190 ∷ pos 193 ∷ [])
    × Any (λ k. k ≡ high) (pos 190 ∷ pos 193 ∷ [])
stat-shown_example = stat-shown thousandths (pos 190) (pos 193 ∷ []) (count thousandths)

stat-IsMiddle_example :
    (m : ℤ) × (low : ℤ) × (high : ℤ) × (stat thousandths
        (column thousandths (pos 190 ∷ pos 193 ∷ pos 185 ∷ []))
        (count thousandths)
      ≡ shown thousandths (count thousandths (int m)) low high (count thousandths))
    × IsMiddle m (pos 190 ∷ pos 193 ∷ pos 185 ∷ [])
    × Spans low high (pos 190 ∷ pos 193 ∷ pos 185 ∷ [])
stat-IsMiddle_example =
    stat-IsMiddle thousandths (pos 190) (pos 193 ∷ pos 185 ∷ []) (count thousandths) refl

stat-IsAtRank_example :
    (a : ℤ) × (b : ℤ) × (low : ℤ) × (high : ℤ) × (stat thousandths
        (column thousandths (pos 190 ∷ pos 193 ∷ []))
        (count thousandths)
      ≡ shown thousandths
          (count thousandths (
            float
              (thousandths.quotient (thousandths.of_int (a +ℤ b)) (thousandths.of_int (pos 2)))))
          low
          high
          (count thousandths))
    × IsAtRank a 0 (pos 190 ∷ pos 193 ∷ [])
    × IsAtRank b 1 (pos 190 ∷ pos 193 ∷ [])
    × Spans low high (pos 190 ∷ pos 193 ∷ [])
stat-IsAtRank_example = stat-IsAtRank thousandths (pos 190) (pos 193 ∷ []) (count thousandths) refl

abbrev args : Args
args = record { variant = codes "nbio"; hold = pos 2; plateau = pos 4; max = pos 100 }

abbrev reason : Reason thousandths
reason = no_growth (number 10) (pos 4)

-- The summary of a run of one sample, whose idle sample was the same.
abbrev written : Summary thousandths
written = record (run_of (codes "nbio") 10) {
  stop_reason = reason_text thousandths reason;
  duration_s = pos 0;
  bytes_per_connection = record {
    cgroup_total = some (pos 0);
    cgroup_anon = none;
    kernel_sockets = none;
    kernel_other = none;
    kernel_slab = none;
    process_rss = none;
    go_heap = none;
  };
}

writes :
    write_summary thousandths args peak (peak ∷ []) (reason_text thousandths reason) [] ≡ ok written
unfolding write_summary choose_peak is_live max_or_zero count_errors bytes_per_connection
    average_cpu is_oom_killed thousandths
writes = refl

stop_label-write_summary_example :
    stop_label thousandths written ≡ codes "stopped growing, server still up"
unfolding is_oom_killed
stop_label-write_summary_example =
    stop_label-write_summary thousandths args peak (peak ∷ []) peak reason [] refl writes

-- Two series, one of which counts nothing.
abbrev series : List (Dict Text × thousandths.Carrier)
series =
    ((codes "reason", codes "timeout") ∷ [], number 3)
    ∷ ((codes "reason", codes "refused") ∷ [], number 0)
    ∷ []

writes_errors :
    write_summary thousandths args peak (peak ∷ []) (reason_text thousandths reason) series
    ≡ ok (record written { dial_errors_by_reason = (codes "timeout", pos 3) ∷ [] })
unfolding write_summary choose_peak is_live max_or_zero count_errors bytes_per_connection
    average_cpu is_oom_killed lookup insert text_eq thousandths
writes_errors = refl

write_summary-Counts_example : Any (Counts thousandths (codes "timeout") (pos 3)) series
unfolding lookup text_eq
write_summary-Counts_example =
    write_summary-Counts thousandths args peak (peak ∷ []) (reason_text thousandths reason) series
      (codes "timeout") (pos 3) writes_errors refl
