-- ===== src/Loadgen/Dial.antt =====
-- `dialLoop` of cmd/loadgen/main.go, with the goroutines that it starts and the close handler: each
-- step is one access to something shared, and the steps of all of them may interleave.
pub mod Sound
pub mod Moves
pub mod Bounds
use millionws.Base.{
  ℕ, zero, suc, ◌+◌, ◌-◌, ◌/◌, ◌≤◌, ◌<◌, ◌≡◌, Bool, true, false, some, if◌then◌else◌, ltb,
}
use millionws.Base.Int.{ℤ, pos, ◌+ℤ◌, ◌-ℤ◌, ◌≤ℤ◌, ◌<ℤ◌}
use millionws.Loadgen.Registry.{Comparable, Registry, new_registry}
use millionws.Loadgen.Registry.Lifecycle.{adds, removes, call}

-- `perTick`
abbrev pub per_tick : ℕ → ℕ
per_tick rate = if ltb (rate / 100) 1 then 1 else rate / 100

-- Where the loop stands, with `i`.
pub data Pc : Type 0 where
  -- at the select on the ticker
  waiting : Pc
  -- at the head of the inner loop
  checking : (i : ℕ) → Pc
  -- `active.Load()` has returned
  loaded : (i : ℕ) → (seen : ℤ) → Pc
  -- at the select on the semaphore
  passed : (i : ℕ) → Pc
  -- the semaphore is taken
  holding : (i : ℕ) → Pc
  -- `pending.Add(1)` has returned
  marked : (i : ℕ) → Pc
  -- `ctx` is done
  returned : Pc

module _ (c : Comparable) where
  -- What is shared, and how many goroutines stand at each place.
  pub record State : Type 0 where
    pub pc : Pc
    pub reg : Registry c
    pub active : ℤ
    pub pending : ℕ
    -- the elements of `sem`
    pub slots : ℕ
    -- the dials that the loop has started
    pub next : ℕ
    -- in `Dial`; `reg.add` has returned true; before the deferred call; `<-sem` has returned
    pub dialing : ℕ
    pub added : ℕ
    pub settled : ℕ
    pub released : ℕ
    -- close handlers in which `reg.remove` has returned true, before `active.Add(-1)`
    pub closers : ℕ
    -- the ticks that the loop has received
    pub ticks : ℕ

  abbrev pub begin : State
  begin = record {
    pc = waiting;
    reg = new_registry c;
    active = pos 0;
    pending = 0;
    slots = 0;
    next = 0;
    dialing = 0;
    added = 0;
    settled = 0;
    released = 0;
    closers = 0;
    ticks = 0;
  }

  module _ (target inflight rate : ℕ) where
    -- A step of the loop.
    pub data Loop (s : State) : State → Type 0 where
      tick : s.pc ≡ waiting → Loop s (record s { pc = checking 0; ticks = suc s.ticks })
      quit : s.pc ≡ waiting → Loop s (record s { pc = returned })
      all_started :
          {i : ℕ} → s.pc ≡ checking i → per_tick rate ≤ i → Loop s (record s { pc = waiting })
      load_active :
          {i : ℕ}
          → s.pc ≡ checking i
          → i < per_tick rate
          → Loop s (record s { pc = loaded i s.active })
      -- `active.Load()+pending.Load() >= target`
      enough :
          {i : ℕ} {seen : ℤ}
          → s.pc ≡ loaded i seen
          → pos target ≤ℤ (seen +ℤ pos s.pending)
          → Loop s (record s { pc = waiting })
      too_few :
          {i : ℕ} {seen : ℤ}
          → s.pc ≡ loaded i seen
          → (seen +ℤ pos s.pending) <ℤ pos target
          → Loop s (record s { pc = passed i })
      busy : {i : ℕ} → s.pc ≡ passed i → inflight ≤ s.slots → Loop s (record s { pc = waiting })
      acquire :
          {i : ℕ}
          → s.pc ≡ passed i
          → s.slots < inflight
          → Loop s (record s { pc = holding i; slots = suc s.slots })
      mark :
          {i : ℕ}
          → s.pc ≡ holding i
          → Loop s (record s { pc = marked i; next = suc s.next; pending = suc s.pending })
      start :
          {i : ℕ}
          → s.pc ≡ marked i
          → Loop s (record s { pc = checking (suc i); dialing = suc s.dialing })

  -- A step of a goroutine that dials, or of the close handler.
  pub data Worker (s : State) : State → Type 0 where
    fail :
        {d : ℕ} → s.dialing ≡ suc d → Worker s (record s { dialing = d; settled = suc s.settled })
    store :
        {d : ℕ} {reg : Registry c} (x : c.C)
        → s.dialing ≡ suc d
        → call c (adds x) s.reg ≡ some (reg, true)
        → Worker s (record s { reg = reg; dialing = d; added = suc s.added })
    refuse :
        {d : ℕ} {reg : Registry c} (x : c.C)
        → s.dialing ≡ suc d
        → call c (adds x) s.reg ≡ some (reg, false)
        → Worker s (record s { reg = reg; dialing = d; settled = suc s.settled })
    count_up :
        {a : ℕ}
        → s.added ≡ suc a
        → Worker s (record s { active = s.active +ℤ pos 1; added = a; settled = suc s.settled })
    release :
        {d : ℕ}
        → s.settled ≡ suc d
        → Worker s (record s { slots = s.slots - 1; settled = d; released = suc s.released })
    unmark :
        {d : ℕ} → s.released ≡ suc d → Worker s (record s { pending = s.pending - 1; released = d })
    -- the close handler
    close :
        {reg : Registry c} (x : c.C)
        → call c (removes x) s.reg ≡ some (reg, true)
        → Worker s (record s { reg = reg; closers = suc s.closers })
    close_unknown :
        {reg : Registry c} (x : c.C)
        → call c (removes x) s.reg ≡ some (reg, false)
        → Worker s (record s { reg = reg })
    count_down :
        {d : ℕ}
        → s.closers ≡ suc d
        → Worker s (record s { active = s.active -ℤ pos 1; closers = d })

  module _ (target inflight rate : ℕ) where
    pub data Step (s t : State) : Type 0 where
      loop : Loop target inflight rate s t → Step s t
      worker : Worker s t → Step s t

    -- What any interleaving comes to.
    pub data Reach : State → Type 0 where
      here : Reach begin
      step : {s t : State} → Reach s → Step s t → Reach t
