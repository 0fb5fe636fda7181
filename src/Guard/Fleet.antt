-- ===== src/Guard/Fleet.antt =====
-- What AWS documents of the two calls that guard.py makes, over the machines of an account:
-- DescribeInstances returns the instances that pass every filter, in pages of reservations, and
-- TerminateInstances shuts the named instances down and touches no other.
use millionws.Base.{
  ◌≡◌, Bool, true, false, ◌&&◌, Option, none, some, List, [], ◌∷◌, ◌++◌, map, filter, All,
}
use millionws.Base.Text.{Text, member, codes, text_eq}
use millionws.Base.Result.{ok}
use millionws.Guard.{Instance, Filter, Page, Ec2}

pub data Phase : Type 0 where
  pending : Phase
  running : Phase
  stopping : Phase
  stopped : Phase
  shutting_down : Phase
  terminated : Phase

-- An instance with its `Project` tag, if it has one, and its state.
pub record Machine : Type 0 where
  pub instance : Instance
  pub project : Option Text
  pub phase : Phase

abbrev pub phase_name : Phase → Text
phase_name pending = codes "pending"
phase_name running = codes "running"
phase_name stopping = codes "stopping"
phase_name stopped = codes "stopped"
phase_name shutting_down = codes "shutting-down"
phase_name terminated = codes "terminated"

-- The attribute of a machine that a filter's name selects.
abbrev pub attribute : Text → Machine → Option Text
attribute name m = elim (text_eq name (codes "tag:Project")) [
  | true ↦ m.project
  | false ↦ elim (text_eq name (codes "instance-state-name")) [
    | true ↦ some (phase_name m.phase)
    | false ↦ none
  ]
]

abbrev pub admits : List Text → Option Text → Bool
admits values none = false
admits values (some v) = member v values

unfoldable pub passes : List Filter → Machine → Bool
passes [] m = true
passes ((name, values) ∷ fs) m = admits values (attribute name m) && passes fs m

abbrev pub shut : Machine → Machine
shut m = record m { phase = shutting_down }

-- TerminateInstances leaves an instance that is already terminated as it is.
unfoldable pub shut_named : List Text → Machine → Machine
unfolding member
shut_named ids m = elim (member m.instance.instance_id ids) [
  | true ↦ elim m.phase [ terminated ↦ m | _ ↦ shut m ]
  | false ↦ m
]

unfoldable pub page_instances : Page → List Instance
page_instances [] = []
page_instances (r ∷ rs) = r ++ page_instances rs

unfoldable pub all_instances : List Page → List Instance
unfolding page_instances
all_instances [] = []
all_instances (p ∷ ps) = page_instances p ++ all_instances ps

abbrev pub id_of : Machine → Text
id_of m = m.instance.instance_id

-- The documented behaviour, over what `view` shows of the account. A call of TerminateInstances
-- succeeds for instances that exist.
pub record IsFleet (ec2 : Ec2) (view : ec2.State → List Machine) : Type 0 where
  pub lists :
      (fs : List Filter) (s : ec2.State)
      → (pages : List Page) × (ec2.paginate fs s ≡ ok pages)
        × (all_instances pages ≡ map (λ m. m.instance) (filter (passes fs) (view s)))
  pub shuts :
      (ids : List Text) (s : ec2.State)
      → All (λ i. member i (map id_of (view s)) ≡ true) ids
      → (s' : ec2.State) × (ec2.terminate_instances ids s ≡ (s', ok tt))
        × (view s' ≡ map (shut_named ids) (view s))
