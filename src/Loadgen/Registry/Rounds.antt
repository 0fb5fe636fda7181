-- ===== src/Loadgen/Registry/Rounds.antt =====
-- The batches of registry.go that the load generator sends to, one behind the other.
use native.Mathlib.Nat.{mod-lt, mod-add-mod, mod-eq_of_lt, mod-eq-sub-mod}
use millionws.Base.{
  ℕ, zero, suc, ◌+◌, ◌-◌, ◌%◌, ◌<◌, ◌≤◌, ◌≡◌, refl, sym, ap, ◌∙◌, inl, inr, false, Bool-cases,
  Option, none, some, some-injective, List, [], ◌∷◌, ◌++◌, length, get_elem?, if◌then◌else◌, ltb,
  ◌==◌, arith, length-append,
}
use millionws.Loadgen.Registry.{Comparable, Registry, len, batch_from, batch}
use millionws.Loadgen.Registry.Slots.{get_elem?-in, get_elem?-bound}
use millionws.Loadgen.Registry.Valid.{IsValid}

-- A step around a circle of `t` places.
wrap : (t a j : ℕ) → a < t → j < t → (a + j) % t ≡ (if ltb (a + j) t then a + j else a + j - t)
wrap t a j ha hj = elim (Bool-cases (ltb (a + j) t)) [
  | inl e ↦ rw e (mod-eq_of_lt (ground arith))
  | inr e ↦ rw e (mod-eq-sub-mod {n = a + j} {m = t} (ground arith) ∙ mod-eq_of_lt (ground arith))
]

-- The place from which a place of the circle is reached, and it is the only one.
place_of : (t a i : ℕ) → a < t → i < t → (j : ℕ) × (j < t) × ((a + j) % t ≡ i)
place_of t a i ha hi = elim (Bool-cases (ltb i a)) [
  | inl e ↦ (i + t - a, ground arith, wrap t a (i + t - a) ha (ground arith) ∙ ground arith)
  | inr e ↦ (i - a, ground arith, wrap t a (i - a) ha (ground arith) ∙ ground arith)
]

place-injective : (t a j k : ℕ) → a < t → j < t → k < t → (a + j) % t ≡ (a + k) % t → j ≡ k
place-injective t a j k ha hj hk h = ground (arith, sym (wrap t a j ha hj) ∙ h ∙ wrap t a k ha hk)

module _ {A : Type 0} where
  get_elem?-append :
      (xs ys : List A) (j : ℕ)
      → get_elem? (xs ++ ys) j
        ≡ (if ltb j (length xs) then get_elem? xs j else get_elem? ys (j - length xs))
  get_elem?-append [] ys j = ground arith
  get_elem?-append (x ∷ xs) ys zero = ground arith
  get_elem?-append (x ∷ xs) ys (suc j) = get_elem?-append xs ys j ∙ ground arith

module _ (c : Comparable) where
  -- `n` connections in the order of the list, from the cursor on and around its end.
  abbrev pub IsWalk : List c.C → ℕ → ℕ → List c.C → Type 0
  IsWalk conns cursor n xs =
      (length xs ≡ n)
      × ((j : ℕ) → j < n → get_elem? xs j ≡ get_elem? conns ((cursor + j) % length conns))

  walk-next :
      (conns : List c.C) (at n : ℕ) (x : c.C) (xs : List c.C)
      → get_elem? conns (at % length conns) ≡ some x
      → ((j : ℕ) → j < n → get_elem? xs j ≡ get_elem? conns ((suc at + j) % length conns))
      → (j : ℕ) → j < suc n
      → get_elem? (x ∷ xs) j ≡ get_elem? conns ((at + j) % length conns)
  walk-next conns at n x xs e walk zero h =
      sym e ∙ ap (λ k. get_elem? conns (k % length conns)) (omega arith)
  walk-next conns at n x xs e walk (suc j) h =
      walk j (omega arith) ∙ ap (λ k. get_elem? conns (k % length conns)) (omega arith)

  batch_from-IsWalk :
      (conns : List c.C) (at n : ℕ)
      → 0 < length conns
      → (xs : List c.C) × (batch_from c conns at n ≡ some xs) × IsWalk conns at n xs
  unfolding batch_from
  batch_from-IsWalk conns at zero some_left = ([], refl, (refl, λ j h. absurd (omega arith)))
  batch_from-IsWalk conns at (suc n) some_left =
      let (x, e) = get_elem?-in conns (at % length conns) (mod-lt at some_left) in
      let (xs, d, (l, walk)) = batch_from-IsWalk conns (suc at) n some_left in
      (x ∷ xs, rw (batch_from, e, d) refl, (ap suc l, walk-next conns at n x xs e walk))

  abbrev pub total : List ℕ → ℕ
  total [] = 0
  total (n ∷ ns) = n + total ns

  -- Batches one behind the other, each from the cursor that the one before it returned.
  unfoldable pub batch_all : Registry c → ℕ → List ℕ → Option (List c.C)
  batch_all r cursor [] = some []
  batch_all r cursor (n ∷ ns) = elim (batch c r cursor n) [
    | none ↦ none
    | some (xs, next) ↦ elim (batch_all r next ns) [ none ↦ none | some ys ↦ some (xs ++ ys) ]
  ]

  batch-IsWalk :
      (r : Registry c) (cursor n : ℕ)
      → 0 < len c r
      → n ≤ len c r
      → (xs : List c.C) × (batch c r cursor n ≡ some (xs, (cursor + n) % len c r))
        × IsWalk r.conns cursor n xs
  unfolding batch
  batch-IsWalk r cursor n some_left fits =
      let (xs, e, walk) = batch_from-IsWalk r.conns cursor n some_left in
      let all : (if ltb (len c r) n then len c r else n) ≡ n = ground arith in
      let filled : (len c r == 0) ≡ false = ground arith in
      (xs, rw (batch, filled, all, e) (ap (λ k. some (xs, (cursor + k) % len c r)) all), walk)

  batch_all-IsWalk :
      (r : Registry c) (cursor : ℕ) (ns : List ℕ)
      → 0 < len c r
      → total ns ≤ len c r
      → (xs : List c.C) × (batch_all r cursor ns ≡ some xs) × IsWalk r.conns cursor (total ns) xs
  unfolding batch_all
  batch_all-IsWalk r cursor [] some_left fits = ([], refl, (refl, λ j h. absurd (omega arith)))
  batch_all-IsWalk r cursor (n ∷ ns) some_left fits =
      let (xs, e, (l, walk)) = batch-IsWalk r cursor n some_left (omega arith) in
      let (ys, d, (m, behind)) =
        batch_all-IsWalk r ((cursor + n) % len c r) ns some_left (omega arith) in
      (
        xs ++ ys,
        rw (batch_all, e, d) refl,
        (
          length-append xs ys ∙ omega (arith, l, m),
          λ j h. elim (Bool-cases (ltb j (length xs))) [
            | inl here ↦ get_elem?-append xs ys j ∙ rw here (walk j (ground (arith, l)))
            | inr there ↦
                get_elem?-append xs ys j
                ∙ rw there (
                    behind (j - length xs) (ground (arith, l))
                    ∙ ap (get_elem? r.conns) (
                        mod-add-mod (cursor + n) (len c r) (j - length xs)
                        ∙ ap (λ k. k % len c r) (ground (arith, l))))
          ],
        ),
      )

  -- In a valid registry that is not empty, batches of as many connections as are stored, one behind
  -- the other and from any cursor, never panic, and hold each stored connection at one place
  -- of all and no other: no connection is sent to twice before each has been sent to once.
  pub batch_all-each :
      (r : Registry c) (cursor : ℕ) (ns : List ℕ)
      → IsValid c r
      → 0 < len c r
      → total ns ≡ len c r
      → (xs : List c.C) × (batch_all r cursor ns ≡ some xs)
        × (length xs ≡ len c r)
        × ((x : c.C) (i : ℕ)
            → r.slot x ≡ some i
            → (j : ℕ) × (get_elem? xs j ≡ some x) × ((k : ℕ) → get_elem? xs k ≡ some x → k ≡ j))
  batch_all-each r cursor ns v some_left exact =
      let (xs, e, (l, walk)) = batch_all-IsWalk r cursor ns some_left (omega (arith, exact)) in
      let a = cursor % len c r in
      let small = mod-lt cursor some_left in
      let at = λ (j : ℕ) (h : j < len c r).
        walk j (omega (arith, exact))
        ∙ ap (get_elem? r.conns) (sym (mod-add-mod cursor (len c r) j)) in
      (
        xs,
        e,
        l ∙ exact,
        λ x i h.
            let found = (v.slots x i).0 h in
            let (j, hj, there) = place_of (len c r) a i small (get_elem?-bound r.conns i found) in
            (
              j,
              at j hj ∙ ap (get_elem? r.conns) there ∙ found,
              λ k d.
                  let hk : k < len c r = omega (arith, get_elem?-bound xs k d, l, exact) in
                  let again : r.slot x ≡ some ((a + k) % len c r) =
                    (v.slots x ((a + k) % len c r)).1 (sym (at k hk) ∙ d) in
                  place-injective (len c r) a k j small hk hj
                    (some-injective _ _ (sym again ∙ h) ∙ sym there),
            ),
      )
