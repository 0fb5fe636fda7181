-- ===== src/Guard/Tests.antt =====
-- Runs of guard.py on an account in memory, and the theorems at concrete data.
use millionws.Base.{
  ℕ, ◌-◌, ◌*◌, ◌≡◌, refl, ◌+◌, true, false, All, Option, none, some, List, [], ◌∷◌, map, filter,
  append-nil, arith,
}
use millionws.Base.Int.{ℤ, pos}
use millionws.Base.Text.{member, Text, codes, text_eq}
use millionws.Base.Text.Integer.{int_of_text}
use millionws.Base.Result.{ok, raised, client_error, is_raised}
use millionws.Guard.{Instance, Config, Page, Ec2, load_config, expired, timedelta_minutes, handler}
use millionws.Guard.Fleet.{
  Machine, running, stopped, terminated, passes, shut_named, all_instances, IsFleet,
}
use millionws.Guard.Overdue.{DistinctIds, is_overdue}
use millionws.Guard.Watch.{handler_shuts_overdue}
use millionws.Guard.Schedule.{handler_silent, patrol, patrol_leaves_none}

-- One page, as the fake client of test_guard.py answers: two reservations, the first with one
-- instance at most.
abbrev one_page : List Instance → List Page
one_page [] = ([] ∷ [] ∷ []) ∷ []
one_page (i ∷ is) = ((i ∷ []) ∷ is ∷ []) ∷ []

abbrev fake_ec2 : Ec2
fake_ec2 = record {
  State = List Machine;
  paginate = λ fs ms. ok (one_page (map (λ m. m.instance) (filter (passes fs) ms)));
  terminate_instances = λ ids ms. (map (shut_named ids) ms, ok tt);
}

-- A client whose every call is refused.
abbrev refusing_ec2 : Ec2
refusing_ec2 = record {
  State = List Machine;
  paginate = λ fs ms. raised client_error;
  terminate_instances = λ ids ms. (ms, raised client_error);
}

all_instances-one_page : (is : List Instance) → all_instances (one_page is) ≡ is
unfolding all_instances
all_instances-one_page [] = refl
all_instances-one_page (i ∷ is) = simp append-nil

fake_ec2-IsFleet : IsFleet fake_ec2 (λ ms. ms)
fake_ec2-IsFleet = record {
  lists = λ fs s. (_, refl, all_instances-one_page _);
  shuts = λ ids s h. (_, refl, refl);
}

abbrev noon : ℕ
noon = 63_926_452_800_000_000

abbrev launched : ℕ → ℕ
launched age = noon - age * 60_000_000

abbrev inst : Text → ℕ → Instance
inst i age = record { instance_id = i; launch_time = launched age }

expired_boundary :
    expired
      (inst (codes "a") 254
        ∷ inst (codes "b") 255
        ∷ inst (codes "c") 256
        ∷ inst (codes "d") 900
        ∷ [])
      noon
      (pos 255)
    ≡ ok (codes "c" ∷ codes "d" ∷ [])
unfolding expired
expired_boundary = refl

abbrev bench : Option Text
bench = some (codes "millionws-bench")

-- A young and an old machine of the benchmark, an old one of another project, and one that is gone.
abbrev fleet : List Machine
fleet =
    record { instance = inst (codes "young") 10; project = bench; phase = running }
    ∷ record { instance = inst (codes "old") 400; project = bench; phase = stopped }
    ∷ record { instance = inst (codes "other") 400; project = none; phase = running }
    ∷ record { instance = inst (codes "gone") 900; project = bench; phase = terminated }
    ∷ []

abbrev config : Config
config = record { tag_value = codes "millionws-bench"; max_age_minutes = pos 255 }

default_config : load_config (λ name. none) ≡ ok config
unfolding load_config int_of_text
default_config = refl

fleet-DistinctIds : DistinctIds fleet
fleet-DistinctIds = ground arith

abbrev limit : ℤ
limit = pos 15_300_000_000

config_fits : timedelta_minutes config.max_age_minutes ≡ ok limit
unfolding timedelta_minutes
config_fits = refl

run_at_noon :
    (handler fake_ec2 config noon none fleet).result
    ≡ ok (record { checked = 2; terminated = codes "old" ∷ [] })
unfolding handler passes text_eq member
run_at_noon = refl

handler_shuts_overdue_example :
    (handler fake_ec2 config noon none fleet).result
    ≡ ok (record { checked = 2; terminated = codes "old" ∷ [] })
unfolding text_eq
handler_shuts_overdue_example =
    (handler_shuts_overdue fake_ec2 (λ ms. ms) fake_ec2-IsFleet config noon none fleet
      fleet-DistinctIds config_fits).1

handler_silent_example :
    (is_raised (handler refusing_ec2 config noon none fleet).result ≡ true)
    × ((handler refusing_ec2 config noon none fleet).account ≡ fleet)
unfolding handler
handler_silent_example = handler_silent refusing_ec2 config noon none fleet refl

patrol_leaves_none_example :
    All
      (λ m. is_overdue config.tag_value limit noon m ≡ false)
      (patrol fake_ec2 config (0 ∷ noon ∷ (noon + 1) ∷ []) fleet)
patrol_leaves_none_example =
    patrol_leaves_none fake_ec2 (λ ms. ms) fake_ec2-IsFleet config config_fits (0 ∷ []) noon
      ((noon + 1) ∷ []) fleet fleet-DistinctIds
