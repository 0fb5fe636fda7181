-- ===== src/Server/Tests.antt =====
-- Runs of the server's memory guard and of its memory limit, and the theorems at them.
use native.Mathlib.Nat.{mul-le-mul_left}
use millionws.Base.{
  ℕ, ◌+◌, ◌++◌, some-injective, ◌*◌, ◌/◌, ◌≤◌, ◌≡◌, ◌↔◌, refl, true, false, none, some, Option,
  List, [], ◌∷◌, arith,
}
use millionws.Base.Int.{pos, ◌+ℤ◌, ◌-ℤ◌}
use millionws.Base.Text.{Text, codes}
use millionws.Server.Memory.{
  read_cgroup_int, Shares, Admission, rejecting, accepting, guard_memory, guard_ticks, guard_switch,
  Reading, manage_memory_limit,
}
use millionws.Server.Memory.Guard.{Exceeds, guard_memory-Exceeds}
use millionws.Server.Requests.{
  Event, in_handler, in_callback, tick, request, reject, refuse, accept, count_up, count_total,
  close, count_down, State, at_start, serve, requests,
}
use millionws.Server.Requests.Counts.{serve-counts}
use millionws.Server.Requests.Guarded.{serve-turns_away}
use millionws.Server.Memory.Limit.{IsNear, remainder, last_call, manage_memory_limit-IsNear}

-- A share in whole numbers.
percent_mono : (n k l : ℕ) → k ≤ l → n * k / 100 ≤ n * l / 100
percent_mono n k l h = omega (arith, mul-le-mul_left n h)

percent_le : (n k : ℕ) → k ≤ 100 → n * k / 100 ≤ n
percent_le n k h = omega (arith, mul-le-mul_left n h)

abbrev percent : Shares
percent = record { scaled = λ n k. n * k / 100; scaled_mono = percent_mono; scaled_le = percent_le }

read_limit : read_cgroup_int (some (codes "1000\n")) ≡ some 1000
unfolding read_cgroup_int
read_limit = refl

read_max : read_cgroup_int (some (codes "max\n")) ≡ none
unfolding read_cgroup_int
read_max = refl

abbrev calm : Admission
calm = record { overloaded = false; log = [] }

abbrev three_readings : List (Option Text)
three_readings = some (codes "910\n") ∷ some (codes "870\n") ∷ none ∷ []

guard_memory-Exceeds_example :
    ((guard_memory percent (some (codes "1000\n")) three_readings calm).overloaded ≡ true)
    ↔ Exceeds 900 850 three_readings
guard_memory-Exceeds_example =
    guard_memory-Exceeds percent (some (codes "1000\n")) three_readings calm read_limit refl

rejects_and_accepts :
    guard_memory percent
      (some (codes "10485760000\n"))
      (some (codes "9542041600") ∷ some (codes "9123065856") ∷ some (codes "8388608000") ∷ [])
      calm
    ≡ record { overloaded = false; log = rejecting 9100 10000 ∷ accepting 8000 10000 ∷ [] }
unfolding guard_memory guard_ticks guard_switch read_cgroup_int
rejects_and_accepts = refl

abbrev reading : Text → Reading
reading current = record { current_file = some current; total = 400; released = 100 }

manage_memory_limit-IsNear_example :
    (set : ℕ) × (last_call
        (manage_memory_limit percent []
          (some (codes "1000\n"))
          (reading (codes "700") ∷ reading (codes "704") ∷ [])).1
      ≡ pos set)
    × IsNear (remainder 880 50 704 300) set
unfolding read_cgroup_int
manage_memory_limit-IsNear_example =
    manage_memory_limit-IsNear percent (some (codes "1000\n")) (reading (codes "700") ∷ [])
      (reading (codes "704")) read_limit refl ((omega arith, omega arith), tt)
      (omega arith, omega arith)

abbrev crowded : State
crowded = record at_start {
  admission = record { overloaded = true; log = rejecting 0 0 ∷ [] };
  upgrading = 2;
}

abbrev first_events : List Event
first_events = in_handler request ∷ in_handler request ∷ tick (some (codes "910\n")) ∷ []

serve_first : serve percent (some (codes "1000\n")) first_events at_start ≡ some crowded
unfolding serve guard_memory guard_ticks guard_switch read_cgroup_int
serve_first = refl

abbrev later_events : List Event
later_events =
    in_handler accept
    ∷ in_handler request
    ∷ tick (some (codes "870\n"))
    ∷ in_callback count_up
    ∷ in_handler reject
    ∷ in_handler refuse
    ∷ in_handler request
    ∷ in_callback count_total
    ∷ in_callback close
    ∷ in_callback count_down
    ∷ []

abbrev later_state : State
later_state = record crowded {
  upgrading = 0;
  accepted = 1;
  turning = 1;
  rejected = 1;
  failing = 1;
  total = 1;
  closed = 1;
  ending = 1;
}

serve_later : serve percent (some (codes "1000\n")) later_events crowded ≡ some later_state
unfolding serve guard_memory guard_ticks guard_switch read_cgroup_int ◌+ℤ◌ ◌-ℤ◌
serve_later = refl

serve-turns_away_example : (1 + 1 ≡ 2 + (0 + 0)) × (1 + 0 ≤ 0 + 2)
unfolding read_cgroup_int
serve-turns_away_example =
    serve-turns_away percent (some (codes "1000\n")) read_limit first_events later_events
      serve_first serve_later ([], some (codes "910\n"), [], refl, (910, refl, omega arith), tt)
      (λ n h. omega (arith, some-injective 870 n h), tt)

abbrev all_events : List Event
all_events = first_events ++ later_events

serve_all : serve percent (some (codes "1000\n")) all_events at_start ≡ some later_state
unfolding serve guard_memory guard_ticks guard_switch read_cgroup_int ◌+ℤ◌ ◌-ℤ◌
serve_all = refl

serve-counts_example :
    (requests all_events ≡ 1 + 0 + 1 + (1 + 0 + 1 + 0 + 0))
    × (pos 0 +ℤ pos (0 + 1) ≡ pos (1 + 0))
    × (0 + 1 + 0 ≤ 1 + 0 + 0)
serve-counts_example = serve-counts percent (some (codes "1000\n")) all_events serve_all
