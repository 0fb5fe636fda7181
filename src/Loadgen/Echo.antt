-- ===== src/Loadgen/Echo.antt =====
-- The messages of cmd/loadgen/main.go, from `sendLoop` over the server's echo to `OnMessage`: a message is
-- the time at which it is sent, in decimal, at the front of a buffer that all messages share.
pub mod Observed
use millionws.Base.{
  ℕ, suc, zero, ◌+◌, ◌-◌, ◌/◌, ◌%◌, Bool, Option, none, some, List, [], ◌∷◌, ◌++◌, length,
  if◌then◌else◌, ltb, leb, ◌==◌,
}
use millionws.Base.Int.{ℤ, pos, negsuc, sub_ℕ, ltb_ℤ, ◌-ℤ◌, pos_part}
use millionws.Base.Text.{Text}
use millionws.Base.Text.Integer.{decimal}
use millionws.Record.Number.{Float}
use millionws.Server.Text.{parse_int}
use millionws.Server.Memory.{int64}

-- `-payload`, with its minimum.
abbrev pub payload_size : ℤ → ℕ
payload_size n = if ltb_ℤ n (pos 20) then 20 else pos_part n

-- `bytes.Repeat([]byte{' '}, size)`
abbrev pub spaces : ℕ → Text
spaces zero = []
spaces (suc n) = b' ' ∷ spaces n

abbrev pub drop : ℕ → Text → Text
drop zero s = s
drop (suc n) [] = []
drop (suc n) (c ∷ s) = drop n s

-- `strconv.AppendInt(buf[:0], t, 10)`, which writes to another array where the buffer is too short.
unfoldable pub stamp_time : ℕ → Text → Text
stamp_time t buf =
    if leb (length (decimal t)) (length buf)
    then decimal t ++ drop (length (decimal t)) buf
    else buf

-- `data[:bytes.IndexByte(data, ' ')]`, or all of it.
unfoldable pub before_space : Text → Text
before_space [] = []
before_space (c ∷ s) = let rest = before_space s in if c == b' ' then [] else c ∷ rest

module _ (f : Float) where
  -- `Duration.Seconds()`: the whole seconds and the rest of the nanoseconds, both cut towards zero.
  abbrev pub seconds_of : ℤ → ℤ → f.Carrier
  seconds_of whole rest =
      f.add (f.of_int whole) (f.quotient (f.of_int rest) (f.of_int (pos 1_000_000_000)))

  unfoldable pub seconds : ℤ → f.Carrier
  seconds (pos d) = seconds_of (pos (d / 1_000_000_000)) (pos (d % 1_000_000_000))
  seconds (negsuc n) =
      seconds_of (sub_ℕ 0 ((n + 1) / 1_000_000_000)) (sub_ℕ 0 ((n + 1) % 1_000_000_000))

  -- `time.Duration(time.Now().UnixNano() - sent).Seconds()`
  abbrev pub since : ℕ → Option ℤ → Option f.Carrier
  since now none = none
  since now (some sent) = some (seconds (int64 (pos now -ℤ sent)))

  -- `OnMessage`, with the seconds that it observes; `none` where it returns without.
  unfoldable pub on_message : ℕ → Text → Option f.Carrier
  unfolding before_space parse_int ◌-ℤ◌ int64 seconds
  on_message now message = since now (parse_int (before_space message))

  -- What is observed of the messages, each with the time at which it is sent and that of its echo.
  unfoldable pub echoes : Text → List (ℕ × ℕ) → List (Option f.Carrier)
  unfolding stamp_time on_message
  echoes buf [] = []
  echoes buf ((sent, now) ∷ trips) =
      let message = stamp_time sent buf in on_message now message ∷ echoes message trips

  -- `sendLoop`, of the size that `main` gives it.
  unfoldable pub latencies : ℤ → List (ℕ × ℕ) → List (Option f.Carrier)
  unfolding echoes
  latencies size trips = echoes (spaces (payload_size size)) trips
