-- ===== src/Guard/Schedule.antt =====
-- The runs of guard.py's `handler` that EventBridge starts, one after another, on one account.
use millionws.Base.{
  ℕ, ◌≡◌, ◌≢◌, Bool, true, false, Option, none, List, [], ◌∷◌, ◌++◌, map, All, arith, if◌then◌else◌,
}
use millionws.Base.Int.{ℤ}
use millionws.Base.Text.{Text}
use millionws.Base.Result.{ok, is_raised}
use millionws.Guard.{Config, Ec2, timedelta_minutes, handler}
use millionws.Guard.Fleet.{Machine, IsFleet, shut, id_of}
use millionws.Guard.Overdue.{DistinctIds, is_overdue}
use millionws.Guard.Watch.{handler_shuts_overdue}

-- A run that prints nothing has raised, and has left the account as it was.
pub handler_silent :
    (ec2 : Ec2) (config : Config) (clock : ℕ) (now : Option ℕ) (s : ec2.State)
    → (handler ec2 config clock now s).printed ≡ []
    → (is_raised (handler ec2 config clock now s).result ≡ true)
      × ((handler ec2 config clock now s).account ≡ s)
unfolding handler
handler_silent ec2 config clock now s h = ground arith

abbrev Keeps : (Machine → Bool) → List Machine → Type 0
Keeps p = All (λ m. p m ≡ false)

module _ (tag : Text) (limit : ℤ) (now : ℕ) where
  abbrev close_down : Machine → Machine
  close_down m = if is_overdue tag limit now m then shut m else m

  close_down-Keeps_self : (ms : List Machine) → Keeps (is_overdue tag limit now) (map close_down ms)
  close_down-Keeps_self [] = tt
  close_down-Keeps_self (m ∷ ms) = ground (arith, close_down-Keeps_self ms)

  -- What was not overdue at another time stays so.
  close_down-Keeps :
      (at : ℕ) (ms : List Machine)
      → Keeps (is_overdue tag limit at) ms
      → Keeps (is_overdue tag limit at) (map close_down ms)
  close_down-Keeps at [] h = tt
  close_down-Keeps at (m ∷ ms) h = ground (arith, close_down-Keeps at ms h.1)

  id_of-close_down : (m : Machine) → id_of (close_down m) ≡ id_of m
  id_of-close_down m = ground arith

  close_down-fresh :
      (a : Text) (ms : List Machine)
      → All (λ n. a ≢ id_of n) ms
      → All (λ n. a ≢ id_of n) (map close_down ms)
  close_down-fresh a [] h = tt
  close_down-fresh a (m ∷ ms) h = (rw (id_of-close_down m) h.0, close_down-fresh a ms h.1)

  close_down-DistinctIds : (ms : List Machine) → DistinctIds ms → DistinctIds (map close_down ms)
  close_down-DistinctIds [] d = tt
  close_down-DistinctIds (m ∷ ms) d =
      (rw (id_of-close_down m) (close_down-fresh (id_of m) ms d.0), close_down-DistinctIds ms d.1)

module _ (ec2 : Ec2) (config : Config) where
  -- The account after runs at the given times.
  unfoldable pub patrol : List ℕ → ec2.State → ec2.State
  unfolding handler
  patrol [] s = s
  patrol (t ∷ ts) s = patrol ts (handler ec2 config t none s).account

module _ (ec2 : Ec2) (view : ec2.State → List Machine) (fleet : IsFleet ec2 view) (config : Config)
    {limit : ℤ} (fits : timedelta_minutes config.max_age_minutes ≡ ok limit) where
  after_run :
      (t : ℕ) (s : ec2.State)
      → DistinctIds (view s)
      → view (handler ec2 config t none s).account
        ≡ map (close_down config.tag_value limit t) (view s)
  after_run t s d = (handler_shuts_overdue ec2 view fleet config t none s d fits).0

  after_run-DistinctIds :
      (t : ℕ) (s : ec2.State)
      → DistinctIds (view s)
      → DistinctIds (view (handler ec2 config t none s).account)
  after_run-DistinctIds t s d =
      rw (after_run t s d) (close_down-DistinctIds config.tag_value limit t (view s) d)

  patrol-Keeps :
      (at : ℕ) (ts : List ℕ) (s : ec2.State)
      → DistinctIds (view s)
      → Keeps (is_overdue config.tag_value limit at) (view s)
      → Keeps (is_overdue config.tag_value limit at) (view (patrol ec2 config ts s))
  unfolding patrol
  patrol-Keeps at [] s d h = h
  patrol-Keeps at (t ∷ ts) s d h =
      patrol-Keeps at ts (handler ec2 config t none s).account (after_run-DistinctIds t s d)
        (rw (after_run t s d) (close_down-Keeps config.tag_value limit t at (view s) h))

  -- On an account whose machines have distinct ids, where EC2 lists and terminates as `IsFleet`
  -- says and the age limit fits a timedelta: whatever runs come before and after it, a run at time
  -- `t` leaves no machine that was launched more than the limit before `t`, carries the tag and is
  -- in one of the four states of the filter.
  pub patrol_leaves_none :
      (ts : List ℕ) (t : ℕ) (us : List ℕ) (s : ec2.State)
      → DistinctIds (view s)
      → Keeps (is_overdue config.tag_value limit t) (view (patrol ec2 config (ts ++ t ∷ us) s))
  unfolding patrol
  patrol_leaves_none [] t us s d =
      patrol-Keeps t us (handler ec2 config t none s).account (after_run-DistinctIds t s d)
        (rw (after_run t s d) (close_down-Keeps_self config.tag_value limit t (view s)))
  patrol_leaves_none (u ∷ ts) t us s d =
      patrol_leaves_none ts t us (handler ec2 config u none s).account (after_run-DistinctIds u s d)
