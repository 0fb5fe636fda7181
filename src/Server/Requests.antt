-- ===== src/Server/Requests.antt =====
-- main.go: the handler of /ws, the counters of `newUpgrader`, and the guard of memory.go beside them.
-- An event is one access of a goroutine to what the goroutines share.
pub mod Series
pub mod Counts
pub mod Guarded
use millionws.Base.{
  ℕ, suc, zero, ◌+◌, ◌-◌, Bool, true, false, Option, none, some, List, [], ◌∷◌, ◌++◌,
}
use millionws.Base.Int.{ℤ, pos, ◌+ℤ◌, ◌-ℤ◌}
use millionws.Base.Text.{Text}
use millionws.Server.Memory.{Shares, Admission, guard_memory}

-- In the handler.
pub data Access : Type 0 where
  -- `overloaded.Load()`
  request : Access
  -- `rejectedConnections.Inc()`, and 503
  reject : Access
  -- `upgrader.Upgrade` returns an error, or calls `OnOpen`
  refuse : Access
  accept : Access
  -- `upgradeErrors.Inc()`
  count_error : Access

-- In `OnOpen` and `OnClose`.
pub data Count : Type 0 where
  -- `activeConnections.Inc()`, `totalConnections.Inc()`
  count_up : Count
  count_total : Count
  -- `OnClose` is called
  close : Count
  -- `activeConnections.Dec()`, `totalDisconnections.Inc()`
  count_down : Count
  count_end : Count

pub data Event : Type 0 where
  -- the guard reads memory.current
  tick : Option Text → Event
  in_handler : Access → Event
  in_callback : Count → Event

-- The counters, and how many goroutines stand before each of their next accesses.
pub record State : Type 0 where
  pub admission : Admission
  -- `rejectedConnections`, `upgradeErrors`
  pub rejected : ℕ
  pub errors : ℕ
  -- `activeConnections`, `totalConnections`, `totalDisconnections`
  pub active : ℤ
  pub total : ℕ
  pub disconnections : ℕ
  -- the handlers that turn a client away, that are in `Upgrade`, and that have its error
  pub turning : ℕ
  pub upgrading : ℕ
  pub failing : ℕ
  -- the calls of `OnOpen`, and those before each of its two accesses
  pub accepted : ℕ
  pub opening : ℕ
  pub opened : ℕ
  -- the calls of `OnClose`, and those before each of its two accesses
  pub closed : ℕ
  pub closing : ℕ
  pub ending : ℕ

abbrev pub at_start : State
at_start = record {
  admission = record { overloaded = false; log = [] };
  rejected = 0;
  errors = 0;
  active = pos 0;
  total = 0;
  disconnections = 0;
  turning = 0;
  upgrading = 0;
  failing = 0;
  accepted = 0;
  opening = 0;
  opened = 0;
  closed = 0;
  closing = 0;
  ending = 0;
}

-- What an access makes of the state, where some goroutine stands before it.
abbrev pub next_of : ℕ → State → Option State
next_of zero s = none
next_of (suc n) s = some s

-- The handler behind `overloaded.Load()`.
abbrev pub admit : Bool → State → State
admit true s = record s { turning = suc s.turning }
admit false s = record s { upgrading = suc s.upgrading }

-- The handler of /ws.
unfoldable pub handle : Access → State → Option State
handle request s = some (admit s.admission.overloaded s)
handle reject s =
    next_of s.turning (record s { turning = s.turning - 1; rejected = suc s.rejected })
handle refuse s =
    next_of s.upgrading (record s { upgrading = s.upgrading - 1; failing = suc s.failing })
handle accept s =
    next_of s.upgrading
      (record s { upgrading = s.upgrading - 1; accepted = suc s.accepted; opening = suc s.opening })
handle count_error s =
    next_of s.failing (record s { failing = s.failing - 1; errors = suc s.errors })

-- The callbacks of `newUpgrader`; `OnClose` is called once at most for each call of `OnOpen`.
unfoldable pub call_back : Count → State → Option State
unfolding ◌+ℤ◌ ◌-ℤ◌
call_back count_up s =
    next_of s.opening
      (record s { opening = s.opening - 1; active = s.active +ℤ pos 1; opened = suc s.opened })
call_back count_total s = next_of s.opened (record s { opened = s.opened - 1; total = suc s.total })
call_back close s =
    next_of (s.accepted - s.closed) (record s { closed = suc s.closed; closing = suc s.closing })
call_back count_down s =
    next_of s.closing
      (record s { closing = s.closing - 1; active = s.active -ℤ pos 1; ending = suc s.ending })
call_back count_end s =
    next_of s.ending (record s { ending = s.ending - 1; disconnections = suc s.disconnections })

-- The guard, the handlers and the callbacks side by side.
unfoldable pub act : Shares → Option Text → Event → State → Option State
unfolding guard_memory handle call_back
act shares max_file (tick file) s =
    some (record s { admission = guard_memory shares max_file (file ∷ []) s.admission })
act shares max_file (in_handler access) s = handle access s
act shares max_file (in_callback count) s = call_back count s

-- A series of events; `none` where one of them cannot take place.
unfoldable pub serve : Shares → Option Text → List Event → State → Option State
unfolding act
serve shares max_file [] s = some s
serve shares max_file (e ∷ es) s = elim (act shares max_file e s) [
  | none ↦ none
  | some t ↦ serve shares max_file es t
]

-- What the guard has read.
abbrev pub reading_of : Event → List (Option Text)
reading_of (tick file) = file ∷ []
reading_of e = []

abbrev pub readings : List Event → List (Option Text)
readings [] = []
readings (e ∷ es) = reading_of e ++ readings es

-- How many requests have come.
abbrev pub is_request : Event → ℕ
is_request (in_handler request) = 1
is_request e = 0

abbrev pub requests : List Event → ℕ
requests [] = 0
requests (e ∷ es) = is_request e + requests es
