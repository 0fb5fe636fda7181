-- ===== src/Loadgen/Registry/Series.antt =====
-- Any series of calls of registry.go's `add` and `remove`, in the order in which they get the mutex.
use millionws.Base.{
  ℕ, ◌+◌, ◌≡◌, refl, ap, subst, ◌∙◌, Bool, Option, none, some, List, [], ◌∷◌, length, if◌then◌else◌,
  arith,
}
use millionws.Loadgen.Registry.{Comparable, Registry, new_registry, put}
use millionws.Loadgen.Registry.Valid.{IsValid, new_registry-IsValid}
use millionws.Loadgen.Registry.Lifecycle.{
  Status, unknown, Call, connection, on_call, call, status_of, gained, lost, call-Follows,
}

module _ (c : Comparable) where
  -- The registry behind the calls, and their reports.
  unfoldable pub call_all : List (Call c) → Registry c → Option (Registry c × List Bool)
  call_all [] r = some (r, [])
  call_all (k ∷ calls) r = elim (call c k r) [
    | none ↦ none
    | some (r', b) ↦ elim (call_all calls r') [ none ↦ none | some (s, bs) ↦ some (s, b ∷ bs) ]
  ]

  -- The same of a status for each connection, on its own.
  abbrev pub statuses : List (Call c) → (c.C → Status) → c.C → Status
  statuses [] m = m
  statuses (k ∷ calls) m =
      statuses calls (put c (connection c k) (on_call c k (m (connection c k))).0 m)

  abbrev pub reports : List (Call c) → (c.C → Status) → List Bool
  reports [] m = []
  reports (k ∷ calls) m =
      (on_call c k (m (connection c k))).1
      ∷ reports calls (put c (connection c k) (on_call c k (m (connection c k))).0 m)

  -- `active`, which the program counts up when `add` reports true, and down when `remove` does.
  abbrev pub ups : List (Call c) → List Bool → ℕ
  ups [] bs = 0
  ups (k ∷ calls) [] = 0
  ups (k ∷ calls) (b ∷ bs) = gained c k b + ups calls bs

  abbrev pub downs : List (Call c) → List Bool → ℕ
  downs [] bs = 0
  downs (k ∷ calls) [] = 0
  downs (k ∷ calls) (b ∷ bs) = lost c k b + downs calls bs

  -- The registry behind a series of calls, from a registry whose connections have the statuses `m`.
  pub record Reached (calls : List (Call c)) (m : c.C → Status) (r r' : Registry c) : Type 0 where
    pub called : call_all calls r ≡ some (r', reports calls m)
    pub valid : IsValid c r'
    pub status : (y : c.C) → status_of c r' y ≡ statuses calls m y
    pub counted :
        length r'.conns + downs calls (reports calls m)
        ≡ length r.conns + ups calls (reports calls m)

  call_all-Reached :
      (calls : List (Call c)) (m : c.C → Status) (r : Registry c)
      → IsValid c r
      → ((y : c.C) → status_of c r y ≡ m y)
      → (r' : Registry c) × Reached calls m r r'
  unfolding call_all
  call_all-Reached [] m r v h =
      (r, record { called = refl; valid = v; status = h; counted = omega arith })
  call_all-Reached (k ∷ calls) m r v h =
      let (r', b, f) = call-Follows c k r v in
      let x = connection c k in
      let m' = put c x (on_call c k (m x)).0 m in
      let same : on_call c k (status_of c r x) ≡ on_call c k (m x) = ap (on_call c k) (h x) in
      let reported : b ≡ (on_call c k (m x)).1 = f.report ∙ ap (λ p. p.1) same in
      let status : (y : c.C) → status_of c r' y ≡ m' y = λ y.
        f.status y
        ∙ ap (λ p. if c.eq y x then p.0 else status_of c r y) same
        ∙ ap (λ q. if c.eq y x then (on_call c k (m x)).0 else q) (h y) in
      let (s, reached) = call_all-Reached calls m' r' f.valid status in
      let counted =
        subst (λ q. length r'.conns + lost c k q ≡ length r.conns + gained c k q) reported
          f.counted in
      (
        s,
        record {
          called =
              rw (call_all, f.called, reached.called)
                (ap (λ q. some (s, q ∷ reports calls m')) reported);
          valid = reached.valid;
          status = reached.status;
          counted = omega (arith, counted, reached.counted);
        },
      )

  -- A series of calls on a new registry never panics. It leaves a valid registry, in which each
  -- connection has the status that the calls for it alone give it; each call reports what
  -- that status says; and the connections that `add` reported true for are those that `remove`
  -- reported true for and those that are stored, by their numbers.
  pub call_all-new :
      (calls : List (Call c)) → (r : Registry c) × Reached calls (λ x. unknown) (new_registry c) r
  call_all-new calls =
      call_all-Reached calls (λ x. unknown) (new_registry c) (new_registry-IsValid c) (λ y. refl)
