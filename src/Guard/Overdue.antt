-- ===== src/Guard/Overdue.antt =====
-- Which machines guard.py finds overdue: the ids that `expired` picks from the listed instances are
-- those of the overdue machines, and shutting the named machines down is shutting those down.
use millionws.Base.{
  ℕ, ◌+◌, ◌≡◌, ◌≢◌, refl, sym, ap, ◌∙◌, Bool, true, false, ◌&&◌, Option, none, some, List, [], ◌∷◌,
  ◌++◌, map, append-nil, append_assoc, length, filter, All, arith, ltb, if◌then◌else◌, Bool-cases,
  inl, inr,
}
use millionws.Base.Int.{ℤ, pos_part, neg_part}
use millionws.Base.Text.{member, Text, text_eq}
use millionws.Base.Text.Laws.{text_eq_ne, text_eq_refl, text_eq_iff}
use millionws.Base.Result.{ok}
use millionws.Guard.{
  Instance, Page, is_old, expired, timedelta_minutes, extend_reservations, extend_pages,
  project_filter, state_filter, Filter,
}
use millionws.Guard.Fleet.{
  admits, phase_name, Machine, Phase, passes, shut, shut_named, page_instances, all_instances,
  id_of, pending, running, stopping, stopped, shutting_down, terminated,
}

-- The account lists no id twice.
abbrev pub DistinctIds : List Machine → Type 0
DistinctIds [] = Unit
DistinctIds (m ∷ ms) = All (λ n. id_of m ≢ id_of n) ms × DistinctIds ms

abbrev pub is_tagged : Text → Machine → Bool
is_tagged tag m = elim m.project [ none ↦ false | some t ↦ text_eq t tag ]

abbrev pub is_live : Machine → Bool
is_live m = elim m.phase [ shutting_down ↦ false | terminated ↦ false | _ ↦ true ]

-- The instance was launched more than `limit` microseconds before `now`.
abbrev pub is_past : ℤ → ℕ → Machine → Bool
is_past limit now m = ltb (m.instance.launch_time + pos_part limit) (now + neg_part limit)

abbrev pub is_overdue : Text → ℤ → ℕ → Machine → Bool
is_overdue tag limit now m = (is_tagged tag m && is_live m) && is_past limit now m

abbrev pub filters : Text → List Filter
filters tag = project_filter tag ∷ state_filter ∷ []

abbrev pub live_names : List Text
live_names = state_filter.1

pub extend_reservations-eq :
    (xs : List Instance) (p : Page) → extend_reservations xs p ≡ xs ++ page_instances p
unfolding extend_reservations page_instances
extend_reservations-eq xs [] = sym (append-nil xs)
extend_reservations-eq xs (r ∷ p) = extend_reservations-eq (xs ++ r) p ∙ append_assoc xs r _

pub extend_pages-eq :
    (xs : List Instance) (ps : List Page) → extend_pages xs ps ≡ xs ++ all_instances ps
unfolding extend_pages all_instances
extend_pages-eq xs [] = sym (append-nil xs)
extend_pages-eq xs (p ∷ ps) =
    extend_pages-eq (extend_reservations xs p) ps
    ∙ rw (extend_reservations-eq xs p) (append_assoc xs (page_instances p) _)

is_old-eq-is_past :
    (limit : ℤ) (now : ℕ) (m : Machine) → is_old limit now m.instance ≡ is_past limit now m
unfolding is_old
is_old-eq-is_past limit now m = ground arith

admits-project :
    (tag : Text) (o : Option Text)
    → admits (tag ∷ []) o ≡ elim o [ none ↦ false | some t ↦ text_eq t tag ]
unfolding member
admits-project tag none = refl
admits-project tag (some t) = ground arith

member-phase_name :
    (ph : Phase)
    → member (phase_name ph) live_names
      ≡ elim ph [ shutting_down ↦ false | terminated ↦ false | _ ↦ true ]
unfolding member text_eq
member-phase_name pending = refl
member-phase_name running = refl
member-phase_name stopping = refl
member-phase_name stopped = refl
member-phase_name shutting_down = refl
member-phase_name terminated = refl

passes-eq : (tag : Text) (m : Machine) → passes (filters tag) m ≡ (is_tagged tag m && is_live m)
unfolding passes text_eq
passes-eq tag m = ground (arith, admits-project tag m.project, member-phase_name m.phase)

-- The ids that the run terminates, as guard.py computes them from the listed instances.
abbrev doomed : Text → ℤ → ℕ → List Machine → List Text
doomed tag limit now ms =
    map (λ i. i.instance_id)
      (filter (is_old limit now) (map (λ m. m.instance) (filter (passes (filters tag)) ms)))

module _ (tag : Text) (limit : ℤ) (now : ℕ) where
  abbrev pub overdue : Machine → Bool
  overdue = is_overdue tag limit now

  doomed-cons :
      (m : Machine) (ms : List Machine)
      → doomed tag limit now (m ∷ ms)
        ≡ (if overdue m then id_of m ∷ doomed tag limit now ms else doomed tag limit now ms)
  doomed-cons m ms = ground (arith, passes-eq tag m, is_old-eq-is_past limit now m)

  doomed-eq : (ms : List Machine) → doomed tag limit now ms ≡ map id_of (filter overdue ms)
  doomed-eq [] = refl
  doomed-eq (m ∷ ms) = rw (doomed-cons m ms) (ground (arith, doomed-eq ms))

  fresh-doomed :
      (a : Text) (ms : List Machine)
      → All (λ n. a ≢ id_of n) ms
      → member a (map id_of (filter overdue ms)) ≡ false
  unfolding member
  fresh-doomed a [] h = refl
  fresh-doomed a (m ∷ ms) h = ground (arith, text_eq_ne a (id_of m), fresh-doomed a ms h.1)

  shut_named-cons :
      (a : Text) (ids : List Text) (ms : List Machine)
      → All (λ n. a ≢ id_of n) ms
      → map (shut_named (a ∷ ids)) ms ≡ map (shut_named ids) ms
  unfolding shut_named
  shut_named-cons a ids [] h = refl
  shut_named-cons a ids (m ∷ ms) h =
      ground (arith, text_eq_iff (id_of m) a, shut_named-cons a ids ms h.1)

  overdue-phase : (m : Machine) → overdue m ≡ true → m.phase ≢ terminated
  overdue-phase m h = ground arith

  filter-late :
      (m : Machine) (ms : List Machine)
      → overdue m ≡ true
      → map id_of (filter overdue (m ∷ ms)) ≡ id_of m ∷ map id_of (filter overdue ms)
  filter-late m ms h = ground arith

  filter-kept :
      (m : Machine) (ms : List Machine)
      → overdue m ≡ false
      → map id_of (filter overdue (m ∷ ms)) ≡ map id_of (filter overdue ms)
  filter-kept m ms h = ground arith

  shut_named-late :
      (m : Machine) (ids : List Text) → overdue m ≡ true → shut_named (id_of m ∷ ids) m ≡ shut m
  unfolding shut_named member
  shut_named-late m ids h = ground (arith, overdue-phase m h, text_eq_refl (id_of m))

  -- Shutting the named machines down is shutting the overdue ones down.
  pub shut_named-doomed :
      (ms : List Machine)
      → DistinctIds ms
      → map (shut_named (map id_of (filter overdue ms))) ms
        ≡ map (λ m. if overdue m then shut m else m) ms
  unfolding shut_named
  shut_named-doomed [] d = refl
  shut_named-doomed (m ∷ ms) d = elim (Bool-cases (overdue m)) [
    | inl late ↦
        ap (λ ids. map (shut_named ids) (m ∷ ms)) (filter-late m ms late)
        ∙ ground (
          arith,
          shut_named-late m (map id_of (filter overdue ms)) late,
          shut_named-cons (id_of m) (map id_of (filter overdue ms)) ms d.0,
          shut_named-doomed ms d.1,
        )
    | inr kept ↦
        ap (λ ids. map (shut_named ids) (m ∷ ms)) (filter-kept m ms kept)
        ∙ ground (arith, fresh-doomed (id_of m) ms d.0, shut_named-doomed ms d.1)
  ]

  -- The doomed ids are ids of the account.
  pub member-doomed :
      (ms ns : List Machine)
      (sub : (a : Text) → member a (map id_of ms) ≡ true → member a (map id_of ns) ≡ true)
      → All (λ a. member a (map id_of ns) ≡ true) (map id_of (filter overdue ms))
  unfolding member
  member-doomed [] ns sub = tt
  member-doomed (m ∷ ms) ns sub = ground (
    arith,
    text_eq_refl (id_of m),
    sub (id_of m),
    member-doomed ms ns (λ a h. sub a (ground arith)),
  )

  -- The part of the run behind the listing, at what the listing returned.
  pub doomed-expired :
      (minutes : ℤ) (ms : List Machine)
      → timedelta_minutes minutes ≡ ok limit
      → expired (map (λ m. m.instance) (filter (passes (filters tag)) ms)) now minutes
        ≡ ok (map id_of (filter overdue ms))
  unfolding expired
  doomed-expired minutes ms e = rw (e, doomed-eq ms) refl

pub length-listed :
    (tag : Text) (ms : List Machine)
    → length (map (λ m. m.instance) (filter (passes (filters tag)) ms))
      ≡ length (filter (λ m. is_tagged tag m && is_live m) ms)
length-listed tag [] = refl
length-listed tag (m ∷ ms) = ground (arith, passes-eq tag m, length-listed tag ms)
