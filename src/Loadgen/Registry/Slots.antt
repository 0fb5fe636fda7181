-- ===== src/Loadgen/Registry/Slots.antt =====
-- The list operations of registry.go, by what stands at an index afterwards.
use millionws.Base.{
  ℕ, zero, suc, ◌<◌, ◌≤◌, ◌≡◌, ◌≢◌, refl, sym, ap, ◌∙◌, inl, inr, Option, Option-cases, none, some,
  some-injective, List, [], ◌∷◌, ◌++◌, length, get_elem?, if◌then◌else◌, ltb, ◌==◌, arith,
}
use millionws.Loadgen.Registry.{set_elem?, take}

pub none-ne-some {ℓ} : {A : Type ℓ} (x : A) → ◌≢◌ {A = Option A} none (some x)
none-ne-some x h = cc

module _ {A : Type 0} where
  pub get_elem?-take :
      (n j : ℕ) (xs : List A) → get_elem? (take n xs) j ≡ (if ltb j n then get_elem? xs j else none)
  unfolding take
  get_elem?-take zero j xs = ground arith
  get_elem?-take (suc n) j [] = ground arith
  get_elem?-take (suc n) zero (x ∷ xs) = ground arith
  get_elem?-take (suc n) (suc j) (x ∷ xs) = get_elem?-take n j xs ∙ ground arith

  pub get_elem?-set :
      (xs : List A) (i : ℕ) (x : A) {ys : List A} (j : ℕ)
      → set_elem? xs i x ≡ some ys
      → get_elem? ys j ≡ (if j == i then some x else get_elem? xs j)
  unfolding set_elem?
  get_elem?-set [] i x j h = cc
  get_elem?-set (y ∷ xs) zero x zero h = ground arith
  get_elem?-set (y ∷ xs) zero x (suc j) h = ground arith
  get_elem?-set (y ∷ xs) (suc i) x zero h = ground arith
  get_elem?-set (y ∷ xs) (suc i) x {ys} (suc j) h = elim (Option-cases (set_elem? xs i x)) [
    | inl e ↦ absurd (none-ne-some ys (rw (set_elem?, e) at h))
    | inr (zs, e) ↦
        let same : y ∷ zs ≡ ys = some-injective _ _ (rw (set_elem?, e) at h) in
        ap (λ l. get_elem? l (suc j)) (sym same) ∙ get_elem?-set xs i x j e ∙ ground arith
  ]

  pub set_elem?-in :
      (xs : List A) (i : ℕ) (x : A)
      → i < length xs
      → (ys : List A) × (set_elem? xs i x ≡ some ys) × (length ys ≡ length xs)
  unfolding set_elem?
  set_elem?-in [] i x h = absurd (omega arith)
  set_elem?-in (y ∷ xs) zero x h = (x ∷ xs, refl, refl)
  set_elem?-in (y ∷ xs) (suc i) x h =
      let (ys, e, l) = set_elem?-in xs i x (omega arith) in
      (y ∷ ys, rw (set_elem?, e) refl, ap suc l)

  pub get_elem?-in : (xs : List A) (i : ℕ) → i < length xs → (x : A) × (get_elem? xs i ≡ some x)
  get_elem?-in [] i h = absurd (omega arith)
  get_elem?-in (x ∷ xs) zero h = (x, refl)
  get_elem?-in (x ∷ xs) (suc i) h = get_elem?-in xs i (omega arith)

  pub get_elem?-bound : (xs : List A) (i : ℕ) {x : A} → get_elem? xs i ≡ some x → i < length xs
  get_elem?-bound [] i h = cc
  get_elem?-bound (y ∷ xs) zero h = omega arith
  get_elem?-bound (y ∷ xs) (suc i) h = omega (arith, get_elem?-bound xs i h)

  pub get_elem?-last :
      (xs : List A) (x : A) (i : ℕ)
      → get_elem? (xs ++ (x ∷ [])) i
        ≡ (if ltb i (length xs) then get_elem? xs i else if i == length xs then some x else none)
  get_elem?-last [] x zero = ground arith
  get_elem?-last [] x (suc i) = ground arith
  get_elem?-last (y ∷ xs) x zero = ground arith
  get_elem?-last (y ∷ xs) x (suc i) = get_elem?-last xs x i ∙ ground arith

  pub length-take : (n : ℕ) (xs : List A) → n ≤ length xs → length (take n xs) ≡ n
  unfolding take
  length-take zero xs h = refl
  length-take (suc n) [] h = absurd (omega arith)
  length-take (suc n) (x ∷ xs) h = ap suc (length-take n xs (omega arith))
