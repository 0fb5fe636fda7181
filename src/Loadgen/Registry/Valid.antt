-- ===== src/Loadgen/Registry/Valid.antt =====
-- The connections of registry.go and their slots belong together, before and after each method.
use millionws.Base.{
  ℕ, suc, ◌-◌, ◌≡◌, ◌≢◌, ◌↔◌, refl, sym, ap, ◌∙◌, inl, inr, Bool, true, false, Bool-cases, none,
  some, some-injective, List, [], ◌∷◌, ◌++◌, length, get_elem?, arith,
}
use millionws.Loadgen.Registry.{Comparable, set_elem?, take, Registry, new_registry, put, take_out}
use millionws.Loadgen.Registry.Slots.{
  none-ne-some, get_elem?-take, get_elem?-set, set_elem?-in, get_elem?-in, get_elem?-bound,
  get_elem?-last, length-take,
}

module _ (c : Comparable) where
  -- A connection is stored in the slot that the map has for it, and in no other; and none is both
  -- stored and remembered as closed.
  pub record IsValid (r : Registry c) : Type 0 where
    pub slots : (x : c.C) (i : ℕ) → (r.slot x ≡ some i) ↔ (get_elem? r.conns i ≡ some x)
    pub apart : (x : c.C) → r.closed x ≡ true → r.slot x ≡ none

  pub new_registry-IsValid : IsValid (new_registry c)
  new_registry-IsValid = record {
    slots = λ x i. (λ h. absurd (none-ne-some i h), λ h. absurd (none-ne-some x h));
    apart = λ x h. refl;
  }

  same_iff : (x y : c.C) → (c.eq x y ≡ true) ↔ (x ≡ y)
  same_iff = c.eq_iff

  -- The registry with a connection behind the others.
  abbrev pub stored : c.C → Registry c → Registry c
  stored x r = record r {
    conns = r.conns ++ (x ∷ []);
    slot = put c x (some (length r.conns)) r.slot;
  }

  pub stored-IsValid :
      (x : c.C) (r : Registry c)
      → r.closed x ≡ false
      → r.slot x ≡ none
      → IsValid r
      → IsValid (stored x r)
  stored-IsValid x r unclosed new v = record {
    slots = λ y i.
        let at_end = get_elem?-last r.conns x i in
        let old = v.slots y i in
        let bound = λ (h : get_elem? r.conns i ≡ some y). get_elem?-bound r.conns i h in
        elim (Bool-cases (c.eq y x)) [
          | inl e ↦
              let same = (c.eq_iff y x).0 e in
              (
                λ h. ground (arith, at_end, e, same),
                λ h. ground (arith, at_end, e, same, old, bound, new),
              )
          | inr e ↦ (
            λ h. ground (arith, at_end, e, old, bound),
            λ h. ground (arith, at_end, e, old, bound, c.eq_iff y x),
          )
        ];
    apart = λ y h. ground (arith, v.apart y, c.eq_iff y x);
  }

  -- The registry without the connection of the slot `i`, whose place the last one takes.
  abbrev pub taken : c.C → ℕ → c.C → List c.C → Registry c → Registry c
  taken x i moved conns r = record r {
    conns = take (length r.conns - 1) conns;
    slot = put c x none (put c moved (some i) r.slot);
  }

  ne_of_eq : (x y : c.C) → c.eq x y ≡ false → x ≢ y
  ne_of_eq x y e h = ground (arith, (c.eq_iff x y).1 h)

  different_slots :
      (x y : c.C) (r : Registry c) {i j : ℕ}
      → IsValid r
      → c.eq x y ≡ false
      → r.slot x ≡ some i
      → r.slot y ≡ some j
      → i ≢ j
  different_slots x y r {i} {j} v e h k same = ne_of_eq x y e (
      some-injective _ _
        (sym ((v.slots x i).0 h) ∙ ap (get_elem? r.conns) same ∙ (v.slots y j).0 k))

  taken-IsValid :
      (x : c.C) (i : ℕ) (moved : c.C) (conns : List c.C) (r : Registry c)
      → r.slot x ≡ some i
      → get_elem? r.conns (length r.conns - 1) ≡ some moved
      → set_elem? r.conns i moved ≡ some conns
      → IsValid r
      → IsValid (taken x i moved conns r)
  taken-IsValid x i moved conns r here last set v = record {
    slots = λ y j.
        let kept = get_elem?-take (length r.conns - 1) j conns in
        let changed = get_elem?-set r.conns i moved j set in
        let old = v.slots y j in
        let bound_i = get_elem?-bound r.conns i ((v.slots x i).0 here) in
        let of_moved = (v.slots moved (length r.conns - 1)).1 last in
        let bound = λ (h : get_elem? r.conns j ≡ some y). get_elem?-bound r.conns j h in
        elim (Bool-cases (c.eq y x)) [
          | inl e ↦
              let here' : r.slot y ≡ some i = ap r.slot ((c.eq_iff y x).0 e) ∙ here in
              let at_end =
                λ (h : moved ≡ y). some-injective _ _ (sym here' ∙ ap r.slot (sym h) ∙ of_moved) in
              (λ h. ground (arith, e), λ h. grind (arith, kept, changed, e, old, here', at_end))
          | inr e ↦ elim (Bool-cases (c.eq y moved)) [
            | inl d ↦
                let of_y : r.slot y ≡ some (length r.conns - 1) =
                  ap r.slot ((c.eq_iff y moved).0 d) ∙ of_moved in
                let not_last = different_slots y x r v e of_y here in
                (
                  λ h.
                      grind (
                        arith,
                        kept,
                        changed,
                        d,
                        e,
                        of_y,
                        not_last,
                        bound_i,
                        (c.eq_iff y moved).0 d,
                      ),
                  λ h. grind (arith, kept, changed, d, e, of_y, old),
                )
            | inr d ↦
                let not_last =
                  λ (h : r.slot y ≡ some j). different_slots y moved r v d h of_moved in
                let not_i = λ (h : r.slot y ≡ some j). different_slots y x r v e h here in
                let other = λ (h : moved ≡ y). ne_of_eq y moved d (sym h) in
                (
                  λ h. grind (arith, kept, changed, d, e, old, bound, not_last, not_i),
                  λ h. grind (arith, kept, changed, d, e, old, other),
                )
          ]
        ];
    apart = λ y h.
        let of_moved = (v.slots moved (length r.conns - 1)).1 last in
        let gone = v.apart y h in
        elim (Bool-cases (c.eq y moved)) [
          | inl d ↦
              absurd (none-ne-some _ (sym gone ∙ ap r.slot ((c.eq_iff y moved).0 d) ∙ of_moved))
          | inr d ↦ ground (arith, gone)
        ];
  }

  -- The registry with `x` remembered as closed, or no longer so.
  abbrev pub marked : c.C → Bool → Registry c → Registry c
  marked x b r = record r { closed = put c x b r.closed }

  pub marked-IsValid :
      (x : c.C) (b : Bool) (r : Registry c)
      → (b ≡ true → r.slot x ≡ none)
      → IsValid r
      → IsValid (marked x b r)
  marked-IsValid x b r h v = record {
    slots = v.slots;
    apart = λ y k. elim (Bool-cases (c.eq y x)) [
      | inl e ↦ ap r.slot ((c.eq_iff y x).0 e) ∙ h (rw e at k)
      | inr e ↦ v.apart y (rw e at k)
    ];
  }

  -- What `remove` makes of a connection in the slot `i`.
  pub take_out-IsValid :
      (x : c.C) (i : ℕ) (r : Registry c)
      → r.slot x ≡ some i
      → IsValid r
      → (moved : c.C) × (conns : List c.C) × (take_out c x i r ≡ some (taken x i moved conns r))
        × (r.slot moved ≡ some (length r.conns - 1))
        × IsValid (taken x i moved conns r)
        × (suc (length (taken x i moved conns r).conns) ≡ length r.conns)
  unfolding take_out
  take_out-IsValid x i r here v =
      let bound = get_elem?-bound r.conns i ((v.slots x i).0 here) in
      let (moved, last) = get_elem?-in r.conns (length r.conns - 1) (omega arith) in
      let (conns, set, same) = set_elem?-in r.conns i moved bound in
      (
        moved,
        conns,
        rw (take_out, last, set) refl,
        (v.slots moved (length r.conns - 1)).1 last,
        taken-IsValid x i moved conns r here last set v,
        ap suc (length-take (length r.conns - 1) conns (omega arith)) ∙ omega arith,
      )
