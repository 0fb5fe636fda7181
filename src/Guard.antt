-- ===== src/Guard.antt =====
-- The cost watchdog, infra/opentofu/aws-ec2/guard/guard.py: its configuration, `expired` and
-- `handler`. The EC2 client is boto3's and a parameter, `Ec2`.

pub mod Fleet
pub mod Overdue
pub mod Watch
pub mod Schedule
mod Tests
use millionws.Base.{
  ℕ, ◌+◌, ◌*◌, Bool, true, false, ◌&&◌, Option, none, some, List, [], ◌∷◌, ◌++◌, map, length,
  filter, if◌then◌else◌,
}
use millionws.Base.Int.{ℤ, pos, negsuc, ◌-ℤ◌, scale, ltb_ℤ, leb_ℤ}
use millionws.Base.Text.{Text, codes}
use millionws.Base.Text.Integer.{int_of_text}
use millionws.Base.Result.{Result, ok, raised, value_error, overflow_error, or_raise, ◌>>=◌}

-- An entry of "Instances". A time is the microseconds since the first day of the calendar.
pub record Instance : Type 0 where
  pub instance_id : Text
  pub launch_time : ℕ

pub record Config : Type 0 where
  pub tag_value : Text
  pub max_age_minutes : ℤ

abbrev pub time_of : ℕ → Option ℕ → ℕ
time_of clock none = clock
time_of clock (some t) = t

abbrev get_env : Option Text → Text → Text
get_env none default = default
get_env (some v) default = v

-- The module's two constants, from the environment.
unfoldable pub load_config : (Text → Option Text) → Result Config
load_config env = do
  minutes ←
      or_raise (int_of_text (get_env (env (codes "MAX_AGE_MINUTES")) (codes "255"))) value_error
  ok (record {
    tag_value = get_env (env (codes "TAG_VALUE")) (codes "millionws-bench");
    max_age_minutes = minutes;
  })

-- A timedelta has from -999999999 to 999999999 whole days.
abbrev pub min_minutes : ℤ
min_minutes = negsuc 1_439_999_998_559

abbrev pub max_minutes : ℤ
max_minutes = pos 1_439_999_999_999

-- `datetime.timedelta(minutes=m)`, in microseconds.
unfoldable pub timedelta_minutes : ℤ → Result ℤ
unfolding scale
timedelta_minutes m =
    if leb_ℤ min_minutes m && leb_ℤ m max_minutes
    then ok (scale 60_000_000 m)
    else raised overflow_error

-- `now - i["LaunchTime"] > limit`
unfoldable pub is_old : ℤ → ℕ → Instance → Bool
unfolding ◌-ℤ◌
is_old limit now i = ltb_ℤ limit (pos now -ℤ pos i.launch_time)

unfoldable pub expired : List Instance → ℕ → ℤ → Result (List Text)
unfolding timedelta_minutes is_old
expired instances now max_age_minutes = do
  limit ← timedelta_minutes max_age_minutes
  ok (map (λ i. i.instance_id) (filter (is_old limit now) instances))

-- An entry of `Filters`: a name and the values that it admits.
abbrev pub Filter : Type 0
Filter = Text × List Text

abbrev pub project_filter : Text → Filter
project_filter tag = (codes "tag:Project", tag ∷ [])

abbrev pub state_filter : Filter
state_filter = (
  codes "instance-state-name",
  codes "pending" ∷ codes "running" ∷ codes "stopping" ∷ codes "stopped" ∷ [],
)

-- A page holds reservations, and a reservation holds instances.
abbrev pub Page : Type 0
Page = List (List Instance)

-- The client: what a call answers or raises, and the account's state behind it. A call of
-- TerminateInstances may raise and have shut some instances down all the same.
pub record Ec2 : Type 1 where
  pub State : Type 0
  pub paginate : List Filter → State → Result (List Page)
  pub terminate_instances : List Text → State → State × Result (Unit {0})

pub data Message : Type 0 where
  terminating : ℕ → ℤ → List Text → Message
  none_past : ℕ → ℤ → Message

pub record Report : Type 0 where
  pub checked : ℕ
  pub terminated : List Text

-- `for reservation in page["Reservations"]: instances.extend(reservation["Instances"])`
unfoldable pub extend_reservations : List Instance → Page → List Instance
extend_reservations instances [] = instances
extend_reservations instances (r ∷ page) = extend_reservations (instances ++ r) page

unfoldable pub extend_pages : List Instance → List Page → List Instance
unfolding extend_reservations
extend_pages instances [] = instances
extend_pages instances (p ∷ pages) = extend_pages (extend_reservations instances p) pages

module _ (ec2 : Ec2) where
  -- What a run leaves: the lines printed, the account, and the value returned or raised.
  pub record Outcome : Type 0 where
    pub printed : List Message
    pub account : ec2.State
    pub result : Result Report

  -- `ec2.terminate_instances(InstanceIds=doomed)` and the return behind it.
  abbrev after_terminate : List Message → Report → ec2.State × Result (Unit {0}) → Outcome
  after_terminate out report (s, ok _) = record { printed = out; account = s; result = ok report }
  after_terminate out report (s, raised e) = record {
    printed = out;
    account = s;
    result = raised e;
  }

  -- From `if doomed:` on.
  unfoldable pub act_on : ℕ → ℤ → List Text → ec2.State → Outcome
  act_on checked minutes [] s = record {
    printed = none_past checked minutes ∷ [];
    account = s;
    result = ok (record { checked = checked; terminated = [] });
  }
  act_on checked minutes (i ∷ ids) s =
      after_terminate (terminating (length (i ∷ ids)) minutes (i ∷ ids) ∷ [])
        (record { checked = checked; terminated = i ∷ ids }) (ec2.terminate_instances (i ∷ ids) s)

  abbrev failed : ec2.State → Result (List Text) → (List Text → Outcome) → Outcome
  failed s (ok ids) k = k ids
  failed s (raised e) k = record { printed = []; account = s; result = raised e }

  -- `handler(ec2=ec2, now=now)`; `clock` is the time that `datetime.now` reads where `now` is None.
  unfoldable pub handler : Config → ℕ → Option ℕ → ec2.State → Outcome
  unfolding extend_pages expired act_on
  handler config clock now s =
      elim (ec2.paginate (project_filter config.tag_value ∷ state_filter ∷ []) s) [
        | raised e ↦ record { printed = []; account = s; result = raised e }
        | ok pages ↦
            let instances = extend_pages [] pages in
            let at = time_of clock now in
            failed s (expired instances at config.max_age_minutes)
              λ doomed. act_on (length instances) config.max_age_minutes doomed s
      ]
