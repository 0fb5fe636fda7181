-- ===== src/Server/Memory.antt =====
-- memory.go: the limit that the server sets for the memory of the Go runtime, and the guard that turns
-- new clients away. A number is an int64, with its wrap-around written out.
pub mod Guard
pub mod Limit
use millionws.Base.{
  ℕ, ◌+◌, ◌-◌, ◌*◌, ◌/◌, ◌%◌, ◌^◌, ◌≤◌, Bool, true, false, not, ◌&&◌, ◌||◌, Option, none, some,
  List, [], ◌∷◌, ◌++◌, if◌then◌else◌, ltb, leb, ◌==◌,
}
use millionws.Base.Int.{ℤ, pos, negsuc, sub_ℕ, negate, ◌-ℤ◌, ltb_ℤ}
use millionws.Base.Text.{Text}
use millionws.Server.Text.{trim, parse_int}

-- `n, err == nil && n > 0`
abbrev pub positive : Option ℤ → Option ℕ
positive none = none
positive (some (pos n)) = if ltb 0 n then some n else none
positive (some (negsuc n)) = none

-- `readCgroupInt`, of the file's text where it can be read.
unfoldable pub read_cgroup_int : Option Text → Option ℕ
unfolding trim parse_int
read_cgroup_int none = none
read_cgroup_int (some raw) = positive (parse_int (trim raw))

-- `int64(float64(n) * share)`, of a share in percent: a share that is greater gives no less,
-- and a share of the whole at most gives no more than the number.
pub record Shares : Type 0 where
  pub scaled : ℕ → ℕ → ℕ
  pub scaled_mono : (n k l : ℕ) → k ≤ l → scaled n k ≤ scaled n l
  pub scaled_le : (n k : ℕ) → k ≤ 100 → scaled n k ≤ n

-- What `guardMemory` logs, with the memory that is used and the limit in MiB.
pub data Notice : Type 0 where
  rejecting : ℕ → ℕ → Notice
  accepting : ℕ → ℕ → Notice

-- `overloaded`, and the log.
pub record Admission : Type 0 where
  pub overloaded : Bool
  pub log : List Notice

abbrev mib : ℕ → ℕ
mib n = n / 2 ^ 20

-- The `switch` of `guardMemory`.
unfoldable pub guard_switch : ℕ → ℕ → ℕ → ℕ → Admission → Admission
guard_switch limit high low current a =
    if ltb high current && not a.overloaded
    then record { overloaded = true; log = a.log ++ (rejecting (mib current) (mib limit) ∷ []) }
    else if ltb current low && a.overloaded
    then record { overloaded = false; log = a.log ++ (accepting (mib current) (mib limit) ∷ []) }
    else a

-- The loop of `guardMemory`, over what memory.current holds at each tick.
unfoldable pub guard_ticks : ℕ → ℕ → ℕ → List (Option Text) → Admission → Admission
unfolding guard_switch
guard_ticks limit high low [] a = a
guard_ticks limit high low (file ∷ files) a =
    let skipped = guard_ticks limit high low files a in
    elim (read_cgroup_int file) [
      | none ↦ skipped
      | some current ↦ guard_ticks limit high low files (guard_switch limit high low current a)
    ]

-- `guardMemory`, of what memory.max holds.
unfoldable pub guard_memory : Shares → Option Text → List (Option Text) → Admission → Admission
unfolding guard_ticks
guard_memory shares max_file files a = elim (read_cgroup_int max_file) [
  | none ↦ a
  | some limit ↦ guard_ticks limit (shares.scaled limit 90) (shares.scaled limit 85) files a
]

-- An integer as an int64, and a uint64 as an int64.
abbrev pub signed_64 : ℕ → ℤ
signed_64 u = if ltb u (2 ^ 63) then pos u else sub_ℕ u (2 ^ 64)

abbrev modulo_64 : ℤ → ℕ
modulo_64 (pos n) = n % 2 ^ 64
modulo_64 (negsuc n) = 2 ^ 64 - 1 - n % 2 ^ 64

unfoldable pub int64 : ℤ → ℤ
int64 z = signed_64 (modulo_64 z)

abbrev pub max_ℤ : ℤ → ℤ → ℤ
max_ℤ a b = if ltb_ℤ a b then b else a

-- `last / 100`, which cuts towards zero.
abbrev pub hundredth : ℤ → ℤ
hundredth (pos n) = pos (n / 100)
hundredth (negsuc n) = sub_ℕ 0 ((n + 1) / 100)

-- `limit`, of what memory.current holds and of the two samples of the runtime, which are uint64.
unfoldable pub wanted_limit : ℕ → ℕ → ℕ → ℕ → ℕ → ℤ
unfolding int64 ◌-ℤ◌
wanted_limit target floor current total released =
    let go_mapped = signed_64 ((total + (2 ^ 64 - released)) % 2 ^ 64) in
    let other = max_ℤ (int64 (pos current -ℤ go_mapped)) (pos 0) in
    max_ℤ (int64 (pos target -ℤ other)) (pos floor)

-- A tick of `manageMemoryLimit` with a reading: `last` behind it, and the limit that is set, if one is.
unfoldable pub set_limit : ℤ → ℤ → ℤ × Option ℤ
unfolding int64 ◌-ℤ◌ negate
set_limit limit last =
    let d = int64 (limit -ℤ last) in
    if ltb_ℤ (hundredth last) d || ltb_ℤ (hundredth last) (int64 (negate d))
    then (limit, some limit)
    else (last, none)

-- What a tick reads: memory.current, and the runtime's total and released bytes.
pub record Reading : Type 0 where
  pub current_file : Option Text
  pub total : ℕ
  pub released : ℕ

-- A tick of `manageMemoryLimit`, on `last` and the limits that were set.
unfoldable pub limit_tick : ℕ → ℕ → Reading → ℤ × List ℤ → ℤ × List ℤ
unfolding wanted_limit set_limit
limit_tick target floor x (last, calls) = elim (read_cgroup_int x.current_file) [
  | none ↦ (last, calls)
  | some current ↦
      let (new, call) = set_limit (wanted_limit target floor current x.total x.released) last in
      (new, elim call [ none ↦ calls | some limit ↦ calls ++ (limit ∷ []) ])
]

unfoldable pub limit_ticks : ℕ → ℕ → List Reading → ℤ × List ℤ → ℤ × List ℤ
unfolding limit_tick
limit_ticks target floor [] s = s
limit_ticks target floor (x ∷ xs) s = limit_ticks target floor xs (limit_tick target floor x s)

-- `manageMemoryLimit`, of GOMEMLIMIT and what memory.max holds.
unfoldable pub manage_memory_limit : Shares → Text → Option Text → List Reading → ℤ × List ℤ
unfolding limit_ticks
manage_memory_limit shares (c ∷ gomemlimit) max_file xs = (pos 0, [])
manage_memory_limit shares [] max_file xs = elim (read_cgroup_int max_file) [
  | none ↦ (pos 0, [])
  | some limit ↦ limit_ticks (shares.scaled limit 88) (limit / 20) xs (pos 0, [])
]
