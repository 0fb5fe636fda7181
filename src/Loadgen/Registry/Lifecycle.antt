-- ===== src/Loadgen/Registry/Lifecycle.antt =====
-- registry.go against the life of each connection: what a series of calls leaves of a connection, and
-- what the calls report, depends on the calls for that connection alone.
use millionws.Base.{
  ℕ, ◌+◌, ◌≡◌, ◌≢◌, refl, sym, ap, ◌∙◌, inl, inr, Bool, true, false, Bool-cases, Option,
  Option-cases, none, some, [], ◌∷◌, length, if◌then◌else◌, arith, length-append,
}
use millionws.Loadgen.Registry.{Comparable, Registry, add, remove}
use millionws.Loadgen.Registry.Slots.{none-ne-some}
use millionws.Loadgen.Registry.Valid.{
  IsValid, stored, stored-IsValid, taken, marked, marked-IsValid, take_out-IsValid,
}

-- A connection before it is known and after it is gone; open and stored; closed before it was added.
pub data Status : Type 0 where
  unknown : Status
  active : Status
  closed_early : Status

-- What a call makes of the status of its connection, and what it reports.
abbrev pub on_add : Status → Status × Bool
on_add unknown = (active, true)
on_add active = (active, false)
on_add closed_early = (unknown, false)

abbrev pub on_remove : Status → Status × Bool
on_remove unknown = (closed_early, false)
on_remove active = (unknown, true)
on_remove closed_early = (closed_early, false)

module _ (c : Comparable) where
  -- A call that the dialer or the close handler makes.
  pub data Call : Type 0 where
    adds : c.C → Call
    removes : c.C → Call

  abbrev pub connection : Call → c.C
  connection (adds x) = x
  connection (removes x) = x

  abbrev pub on_call : Call → Status → Status × Bool
  on_call (adds x) = on_add
  on_call (removes x) = on_remove

  unfoldable pub call : Call → Registry c → Option (Registry c × Bool)
  unfolding add remove
  call (adds x) r = some (add c x r)
  call (removes x) r = remove c x r

  abbrev pub status_of : Registry c → c.C → Status
  status_of r x =
      if r.closed x then closed_early else elim (r.slot x) [ none ↦ unknown | some i ↦ active ]

  -- The number of connections that a call adds and takes away, by its report.
  abbrev pub gained : Call → Bool → ℕ
  gained (adds x) b = if b then 1 else 0
  gained (removes x) b = 0

  abbrev pub lost : Call → Bool → ℕ
  lost (adds x) b = 0
  lost (removes x) b = if b then 1 else 0

  -- What one call does to a valid registry.
  pub record Follows (k : Call) (r r' : Registry c) (reported : Bool) : Type 0 where
    pub called : call k r ≡ some (r', reported)
    pub valid : IsValid c r'
    pub report : reported ≡ (on_call k (status_of r (connection k))).1
    pub status :
        (y : c.C)
        → status_of r' y ≡ (
            if c.eq y (connection k)
            then (on_call k (status_of r (connection k))).0
            else status_of r y)
    pub counted : length r'.conns + lost k reported ≡ length r.conns + gained k reported

  false-ne-true : false ≢ true
  false-ne-true h = cc

  add-Follows :
      (x : c.C) (r : Registry c)
      → IsValid c r
      → (r' : Registry c) × (b : Bool) × Follows (adds x) r r' b
  unfolding call add
  add-Follows x r v = elim (Bool-cases (r.closed x)) [
    | inl e ↦
        let gone = v.apart x e in
        (
          marked c x false r,
          false,
          record {
            called = rw (call, add, e) refl;
            valid = marked-IsValid c x false r (λ h. absurd (false-ne-true h)) v;
            report = rw e refl;
            status = λ y. elim (Bool-cases (c.eq y x)) [
              | inl s ↦
                  let same = (c.eq_iff y x).0 s in
                  ground (arith, s, e, gone, ap r.slot same ∙ gone, ap r.closed same ∙ e)
              | inr s ↦ ground (arith, s)
            ];
            counted = omega arith;
          },
        )
    | inr e ↦ elim (Option-cases (r.slot x)) [
      | inr (i, k) ↦ (
        r,
        false,
        record {
          called = rw (call, add, e, k) refl;
          valid = v;
          report = rw (e, k) refl;
          status = λ y. elim (Bool-cases (c.eq y x)) [
            | inl s ↦
                let same = (c.eq_iff y x).0 s in
                ground (arith, s, e, k, ap r.slot same ∙ k, ap r.closed same ∙ e)
            | inr s ↦ ground (arith, s)
          ];
          counted = omega arith;
        },
      )
      | inl k ↦ (
        stored c x r,
        true,
        record {
          called = rw (call, add, e, k) refl;
          valid = stored-IsValid c x r e k v;
          report = rw (e, k) refl;
          status = λ y. elim (Bool-cases (c.eq y x)) [
            | inl s ↦
                let same = (c.eq_iff y x).0 s in
                ground (arith, s, e, k, ap r.slot same ∙ k, ap r.closed same ∙ e)
            | inr s ↦ ground (arith, s)
          ];
          counted = omega (arith, length-append r.conns (x ∷ []));
        },
      )
    ]
  ]

  closed-of-slot :
      (r : Registry c) → IsValid c r → {x : c.C} {i : ℕ} → r.slot x ≡ some i → r.closed x ≡ false
  closed-of-slot r v {x} {i} k = elim (Bool-cases (r.closed x)) [
    | inl e ↦ absurd (none-ne-some i (sym (v.apart x e) ∙ k))
    | inr e ↦ e
  ]

  remove-Follows :
      (x : c.C) (r : Registry c)
      → IsValid c r
      → (r' : Registry c) × (b : Bool) × Follows (removes x) r r' b
  unfolding call remove
  remove-Follows x r v = elim (Option-cases (r.slot x)) [
    | inl k ↦ (
      marked c x true r,
      false,
      record {
        called = rw (call, remove, k) refl;
        valid = marked-IsValid c x true r (λ h. k) v;
        report = ground (arith, k);
        status = λ y. elim (Bool-cases (c.eq y x)) [
          | inl s ↦ ground (arith, s, k, ap r.slot ((c.eq_iff y x).0 s) ∙ k)
          | inr s ↦ ground (arith, s)
        ];
        counted = omega arith;
      },
    )
    | inr (i, k) ↦
        let (moved, conns, e, of_moved, valid, counted) = take_out-IsValid c x i r k v in
        let unclosed = closed-of-slot r v k in
        (
          taken c x i moved conns r,
          true,
          record {
            called = rw (call, remove, k, e) refl;
            valid = valid;
            report = rw (unclosed, k) refl;
            status = λ y. elim (Bool-cases (c.eq y x)) [
              | inl s ↦ ground (arith, s, k, unclosed, ap r.closed ((c.eq_iff y x).0 s) ∙ unclosed)
              | inr s ↦ elim (Bool-cases (c.eq y moved)) [
                | inl d ↦ ground (arith, s, d, ap r.slot ((c.eq_iff y moved).0 d) ∙ of_moved)
                | inr d ↦ ground (arith, s, d)
              ]
            ];
            counted = omega (arith, counted);
          },
        )
  ]

  pub call-Follows :
      (k : Call) (r : Registry c) → IsValid c r → (r' : Registry c) × (b : Bool) × Follows k r r' b
  call-Follows (adds x) = add-Follows x
  call-Follows (removes x) = remove-Follows x
