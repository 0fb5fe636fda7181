-- ===== src/Record/Tests.antt =====
-- Runs of record.py's functions over decimal numbers, and the theorems at concrete data.
use millionws.Base.{ℕ, ◌*◌, ◌≡◌, refl, true, none, some, List, [], ◌∷◌, Any, arith}
use millionws.Base.Int.{pos}
use millionws.Base.Text.{Text, codes, text_eq, starts_with, splitlines, partition}
use millionws.Base.Text.Integer.{decimal, int_of_text}
use millionws.Base.Dict.{lookup, insert, keys}
use millionws.Base.Result.{ok}
use millionws.Record.Number.Thousandths.{thousandths, thousandths-IsFloat}
use millionws.Record.Parse.{kv, scrape_server, Series, prom}
use millionws.Record.Parse.Kv.{kv-render}
use millionws.Record.Parse.Scrape.{
  field_names, Gives, scrape_server-keys, scrape_server-Gives, prom-number,
}
use millionws.Record.Sampler.{Sample}
use millionws.Record.Loop.{
  Args, Clock, ticks_per_second, go_on, Progress, target_held, no_growth, Round, stopped, run_loop,
  run, decide,
}
use millionws.Record.Loop.Stops.{is_stopped, run_stops}
use millionws.Record.Loop.Held.{Follows, reached_once}
use millionws.Record.Loop.Explained.{Taken, run_explained}
use millionws.Record.Summary.{choose_peak, max_or_zero, is_live}

abbrev number : ℕ → thousandths.Carrier
number n = thousandths.of_int (pos n)

abbrev blank : Sample thousandths
blank = record {
  t = number 0;
  state = codes "running false 0";
  server_conns = none;
  loadgen_conns = none;
  loadgen_target = none;
  cg_memory = none;
  cg_anon = none;
  cg_sock = none;
  cg_kernel = none;
  cg_slab = none;
  cg_percpu = none;
  cg_file = none;
  cg_peak = none;
  oom_kills = none;
  cpu_pct = none;
  pids = none;
  process_rss = none;
  go_heap_inuse = none;
  go_stack_inuse = none;
  goroutines = none;
  open_fds = none;
  dial_errors_15s = none;
  echo_rate = none;
  echo_p50_ms = none;
  echo_p99_ms = none;
  conntrack = none;
  rejected = none;
}

-- A sample with a number of connections, of a load generator that wants 1000.
abbrev sampled : ℕ → Sample thousandths
sampled n = record blank {
  server_conns = some (number n);
  loadgen_target = some (number 1000);
  cg_memory = some (pos 5000);
}

abbrev args : Args
args = record { variant = codes "nbio"; hold = pos 2; plateau = pos 4; max = pos 100 }

-- The clock of a round in which all readings are the same number of seconds.
abbrev clock : ℕ → Clock
clock s = record {
  at_best = ticks_per_second * s;
  at_reached = ticks_per_second * s;
  at_hold = ticks_per_second * s;
  at_plateau = ticks_per_second * s;
  at_limit = ticks_per_second * s;
}

abbrev round_at : ℕ → ℕ → Round thousandths
round_at s n = (ok (sampled n), clock s)

-- The target is met at second 4, lost at 6 and met again at 8, when the run ends as held for two
-- seconds although it was not held.
abbrev dipping : List (Round thousandths)
dipping = round_at 2 900 ∷ round_at 4 1000 ∷ round_at 6 990 ∷ round_at 8 1001 ∷ []

abbrev patient : Args
patient = record args { hold = pos 4; plateau = pos 50 }

dipping_held :
    run thousandths patient 0 dipping
    ≡ stopped
        (sampled 900 ∷ sampled 1000 ∷ sampled 990 ∷ sampled 1001 ∷ [])
        (target_held (number 1000) (pos 4))
unfolding run run_loop decide starts_with thousandths
dipping_held = refl

abbrev at_target : Progress thousandths
at_target = record {
  best = some (number 1000);
  best_at = ticks_per_second * 4;
  reached_at = some (ticks_per_second * 4);
}

dips : decide thousandths patient 0 at_target (sampled 990) (clock 6) ≡ go_on at_target
unfolding decide starts_with thousandths
dips = refl

reached_once_example : at_target.reached_at ≡ some (ticks_per_second * 4)
unfolding Follows
reached_once_example =
    reached_once thousandths patient 0 ((sampled 990, clock 6) ∷ []) at_target at_target refl
      (at_target, dips, refl)

abbrev growing : List (Round thousandths)
growing = round_at 2 500 ∷ round_at 4 600 ∷ round_at 6 601 ∷ round_at 8 599 ∷ round_at 10 600 ∷ []

growing_stops :
    run thousandths args 0 growing
    ≡ stopped
        (sampled 500 ∷ sampled 600 ∷ sampled 601 ∷ sampled 599 ∷ [])
        (no_growth (number 600) (pos 4))
unfolding run run_loop decide starts_with thousandths
growing_stops = refl

run_stops_example :
    is_stopped thousandths (run thousandths (record args { max = pos 8 }) 0 growing) ≡ true
run_stops_example =
    run_stops thousandths (record args { max = pos 8 }) 0 8 growing refl
      (refl, (refl, (refl, (refl, (refl, tt))))) (omega arith) (omega arith) (omega arith)

run_explained_example :
    Taken thousandths args 0 growing
      (sampled 500 ∷ sampled 600 ∷ sampled 601 ∷ sampled 599 ∷ [])
      (no_growth (number 600) (pos 4))
unfolding thousandths
run_explained_example =
    run_explained thousandths thousandths-IsFloat args 0 growing
      (refl, (refl, (refl, (refl, (refl, tt))))) growing_stops

abbrev rows : List (Sample thousandths)
rows = sampled 500 ∷ sampled 997 ∷ sampled 1000 ∷ sampled 996 ∷ sampled 700 ∷ blank ∷ []

peak_of_rows : choose_peak thousandths rows ≡ ok (sampled 996)
unfolding choose_peak is_live max_or_zero thousandths
peak_of_rows = refl

abbrev stat_entries : List (Text × ℕ)
stat_entries = (codes "anon", 1048576) ∷ (codes "sock", 4096) ∷ (codes "anon", 0) ∷ []

kv-render_example :
    kv (codes "anon 1048576\nsock 4096\nanon 0\n")
    ≡ ok ((codes "anon", pos 0) ∷ (codes "sock", pos 4096) ∷ [])
unfolding insert text_eq decimal
kv-render_example = kv-render stat_entries (ground arith)

-- A page that breaks off in the middle of a number.
abbrev page : Text
page =
    codes
      "# HELP x\ngo_goroutines 42\nmillionws_connections_active 990\nprocess_open_fds 9.\ngo_goroutines 7\n"

scrape_server-keys_example : keys (scrape_server thousandths (some page)) ≡ field_names
scrape_server-keys_example = scrape_server-keys thousandths (some page)

scraped :
    lookup (codes "goroutines") (scrape_server thousandths (some page)) ≡ some (some (number 42))
unfolding scrape_server partition lookup insert text_eq int_of_text thousandths
scraped = refl

scrape_server-Gives_example :
    Any (Gives thousandths (codes "goroutines") (number 42)) (splitlines page)
scrape_server-Gives_example =
    scrape_server-Gives thousandths page (codes "goroutines") (number 42) scraped

abbrev answer : List Series
answer = record { metric = []; value = codes "1000" } ∷ []

answered : prom thousandths (some answer) ≡ ok (some (number 1000))
unfolding prom text_eq int_of_text thousandths
answered = refl

prom-number_example : thousandths.eq (number 1000) (number 1000) ≡ true
prom-number_example = (prom-number thousandths (some answer) (number 1000) answered).0

prom_nan : prom thousandths (some (record { metric = []; value = codes "NaN" } ∷ [])) ≡ ok none
unfolding prom thousandths text_eq
prom_nan = refl
