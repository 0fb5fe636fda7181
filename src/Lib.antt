-- ===== src/Lib.antt =====
-- MillionWS is a WebSocket server that is measured at a million connections. Modelled are the sampler
-- that watches a benchmark run and sums it up, the table that compares runs, the watchdog that ends
-- forgotten machines, the scripts that export and chart the evidence of a run, the load generator's
-- connections, dials and messages, and of the server the memory guard, the admission of clients and the
-- addresses.
--
-- How the parts interact. bench/local/record.py runs beside a benchmark: `Sampler` reads the server's
-- cgroup, its /metrics page, Prometheus and Docker every two seconds; `cmd_run` loops over samples until
-- a reason ends the run; `write_summary` picks the peak sample and writes summary.json.
-- bench/local/compare.py reads the summaries of several runs and prints a table. The watchdog
-- infra/opentofu/aws-ec2/guard/guard.py is a function on its own that a timer starts. In
-- scripts/evidence, export_prometheus.py asks Prometheus for the series of a run and writes a document,
-- which plot_run.py charts beside a memory trace; plot_stalls.py and plot_tcp_bound.py chart traces.
-- cmd/loadgen dials the server, holds its connections in a registry and sends messages, which the server
-- echoes; in the server, memory.go sets the flag by which the handler of main.go turns clients away.
--
-- Base: what the parts share. Lists, integers, texts, dicts and exceptions as values, with `str.split`,
-- `str.strip`, `splitlines`, `partition`, `in` and `int` on texts. A text is a list of code points.
-- `int` of a text reads ASCII digits, with no bound on their number, and `decimal` prints an int; one
-- more step than the number's size is enough fuel for its digits. Base.Sort has `sorted`, with what it keeps
-- and the place of its elements.
--
-- Guard, of guard.py: `load_config` for the two settings, `expired`, and `handler`, whose result keeps
-- the lines printed, the account and what is returned or raised. `Ec2` is the client, a parameter with
-- any state; `Guard.Fleet.IsFleet` says what EC2 documents of listing with filters and of terminating.
-- A time is in microseconds since the first day of the calendar, and a timedelta has the bounds of
-- Python's. `patrol` is a series of runs.
--
-- Record, of record.py. Record.Number: `Float` is the arithmetic of Python's float, a parameter, and
-- `IsFloat` the laws that the proofs use of it; Record.Number.Thousandths is an instance, in which the
-- tests run. Record.Parse: `kv`, `scrape_server`, `prom`, `prom_vector`, `docker_state`,
-- `conntrack_count`, which take what the file, the page, Prometheus or Docker answered. Record.Sampler:
-- `Sampler` and `sample`, with a record `Host` of all that one call reads. Record.Loop: `Progress` for
-- `best`, `best_at` and `reached_at`, `decide` for a round, `run_loop` and `run` for the loop of `cmd_run`
-- over a list of rounds, each with its sample and its clock; a time is in units of 2 ** -22 s, in which
-- differences of `time.time()` are exact. The list of rounds bounds the loop. Record.Summary:
-- `choose_peak`, `per_conn`, `is_oom_killed` and `write_summary`. Record.Page: the lines of summary.md,
-- from the summary, and the line that `cmd_idle` prints; `f"{n:,}"` has one more step of fuel than the
-- number's size. Record.Command: `cmd_idle` and `cmd_run` as a whole, over a host and a clock for each
-- round; the rows of samples.csv, the summary and the page are its result, `sample_all` is what its calls
-- of `sample` give, and idle.json is an argument.
--
-- Compare, of compare.py: `load`, `stat`, `stop_label` and `main`, as the lines that are printed. A
-- summary is the record that `write_summary` returns: the file summary.json between them, like idle.json,
-- is taken to hold what was written. The value 0 that `or 0` puts for a missing count is the float 0.
-- The series that Prometheus answers have distinct labels.
--
-- Evidence, of scripts/evidence/*.py: Evidence.Url is `urlencode`, with the reading of a query string
-- (Url.Unquote, Url.Decode); Evidence.Export is export_prometheus.py, over what Prometheus answers to
-- each URL; Evidence.Trace is the `load` that plot_stalls.py and plot_tcp_bound.py share, over the rows
-- of a CSV file; Evidence.Bound is a panel of plot_tcp_bound.py, Evidence.Stall one of plot_stalls.py and
-- Evidence.Timeline the two charts of plot_run.py, each as the numbers and texts that the chart is given.
-- A text is its code points, and `urlencode` raises UnicodeEncodeError at a surrogate, which an argument
-- of the command line may hold (Url.Total is the same text where there is none). In Evidence.Timeline a
-- time of the day is its seconds since midnight; a time of Prometheus is an int or a float, and
-- `from_timestamp`, for `datetime.fromtimestamp` in the zone IST, is a parameter, which may raise, as
-- `strptime` is. `res.upper()` is written out as the two words that it gives.
--
-- Loadgen, of cmd/loadgen: Loadgen.Registry is registry.go, with `none` for a panic and a function for
-- each of its two maps; `Comparable` is its type parameter. A method holds the mutex to its end, so any
-- run of the program is a series of calls: `call_all`, and `batch_all` for the batches of `sendLoop`.
-- Loadgen.Dial is `dialLoop` of main.go with the goroutines that dial and the close handler: `Loop` and
-- `Worker` are their steps, each one access to the registry, to `active`, `pending` or `sem`, and a state
-- counts the goroutines at each place; `Reach` is any interleaving of them. A dial may fail or bring any
-- connection, and any connection may close at any time; dials are not told apart. Loadgen.Echo is what
-- `sendLoop` writes and `OnMessage` reads; a message comes back as it was sent, as main.go of the server
-- echoes it, and a failed write is no message. What is observed are the seconds of the duration, as a
-- float64: a `Float`, which is a parameter.
--
-- Server, of memory.go and main.go: Server.Text is `TrimSpace` and `ParseInt`. Server.Memory has
-- `readCgroupInt`, `guardMemory` and `manageMemoryLimit`, over what each tick reads. A file's number is a
-- natural number below 2 ** 63; the sums and differences of int64 wrap around. `Shares` is
-- int64(float64(n) * share), a parameter with two laws. Server.Ports is `validateMaxLoad`, `parsePorts`,
-- `listenAddrs` and what `main` does with them up to its engine (`addresses_or_exit`); an int has 64 bits.
-- Server.Requests is the handler of /ws, the callbacks of `newUpgrader` and the guard: an event is one
-- access to `overloaded` or to a counter (`handle`, `call_back`), and a state counts the goroutines before
-- each. It is taken from nbio that `Upgrade` fails or calls `OnOpen`, and that `OnClose` is called at most
-- once for each connection.
--
-- Not modelled: the progress lines of record.py and its command line; the calls of matplotlib; in main.go
-- of the server the engine, `checkListening` and the shutdown, in main.go of the load generator the sum
-- `carry`, the classes of errors and the settings, which are calls of nbio, of the network and of the
-- float arithmetic of Go; the infrastructure, dashboards, scripts of the shell and the recorded results.
pub mod Base
pub mod Guard
pub mod Record
pub mod Compare
pub mod Evidence
pub mod Loadgen
pub mod Server
