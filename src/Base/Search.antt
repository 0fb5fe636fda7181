-- ===== src/Base/Search.antt =====
-- The last element that passes a test, and the elements behind it.
use mathlib.Core.Path.{◌≡◌, refl, ap}
use mathlib.Core.Logic.{◌⊎◌, inl, inr}
use mathlib.Core.Bool.{Bool, true, false}
use mathlib.Core.List.{List, [], ◌∷◌, ◌++◌, map}
use mathlib.Core.Option.{some}
use millionws.Base.Tests.{Bool-cases}
use millionws.Base.Lists.{filter, last?, All, Any}

module _ {A : Type 0} where
  pub last?-cons : (x y : A) (xs : List A) → last? xs ≡ some y → last? (x ∷ xs) ≡ some y
  last?-cons x y [] h = cc
  last?-cons x y (z ∷ xs) h = h

  pub last?-filter_cons :
      (keep : A → Bool) (x y : A) (xs : List A)
      → last? (filter keep xs) ≡ some y
      → last? (filter keep (x ∷ xs)) ≡ some y
  last?-filter_cons keep x y xs h = elim (Bool-cases (keep x)) [
    | inl kept ↦ rw kept (last?-cons x y (filter keep xs) h)
    | inr dropped ↦ rw dropped h
  ]

  pub filter-none :
      (keep : A → Bool) (xs : List A) → All (λ x. keep x ≡ false) xs → filter keep xs ≡ []
  filter-none keep [] h = refl
  filter-none keep (x ∷ xs) h = rw (h.0, filter-none keep xs h.1) refl

  pub Any-or_All :
      (keep : A → Bool) (xs : List A) → Any (λ x. keep x ≡ true) xs ⊎ All (λ x. keep x ≡ false) xs
  Any-or_All keep [] = inr tt
  Any-or_All keep (x ∷ xs) = elim (Bool-cases (keep x)) [
    | inl kept ↦ inl (inl kept)
    | inr dropped ↦ elim (Any-or_All keep xs) [
      | inl found ↦ inl (inr found)
      | inr missing ↦ inr (dropped, missing)
    ]
  ]

  -- The list splits at the last element that passes.
  abbrev pub LastPassing : (A → Bool) → List A → Type 0
  LastPassing keep xs =
      (before : List A) × (x : A) × (behind : List A) × (xs ≡ before ++ (x ∷ behind))
      × (keep x ≡ true)
      × All (λ y. keep y ≡ false) behind
      × (last? (filter keep xs) ≡ some x)

  pass_on :
      (keep : A → Bool) (x : A) (xs : List A) → LastPassing keep xs → LastPassing keep (x ∷ xs)
  pass_on keep x xs (before, y, behind, e, kept, missing, found) =
      (x ∷ before, y, behind, ap (λ l. x ∷ l) e, kept, missing, last?-filter_cons keep x y xs found)

  pub Any-map_of :
      {P Q : A → Type 0} (imp : (x : A) → P x → Q x) (xs : List A) → Any P xs → Any Q xs
  Any-map_of imp [] h = absurd h
  Any-map_of imp (x ∷ xs) (inl h) = inl (imp x h)
  Any-map_of imp (x ∷ xs) (inr h) = inr (Any-map_of imp xs h)

  pub All-filter :
      (P : A → Type 0) (keep : A → Bool) (xs : List A) → All P xs → All P (filter keep xs)
  All-filter P keep [] h = tt
  All-filter P keep (x ∷ xs) h = elim (Bool-cases (keep x)) [
    | inl kept ↦ rw kept (h.0, All-filter P keep xs h.1)
    | inr dropped ↦ rw dropped (All-filter P keep xs h.1)
  ]

  pub last?-filter :
      (keep : A → Bool) (xs : List A) → Any (λ x. keep x ≡ true) xs → LastPassing keep xs
  last?-filter keep [] found = absurd found
  last?-filter keep (x ∷ xs) (inl here) = elim (Any-or_All keep xs) [
    | inl later ↦ pass_on keep x xs (last?-filter keep xs later)
    | inr missing ↦ ([], x, xs, refl, here, missing, rw (here, filter-none keep xs missing) refl)
  ]
  last?-filter keep (x ∷ xs) (inr later) = pass_on keep x xs (last?-filter keep xs later)

module _ {A B : Type 0} where
  pub All-map :
      (P : B → Type 0) (g : A → B) (xs : List A) → All (λ x. P (g x)) xs → All P (map g xs)
  All-map P g [] h = tt
  All-map P g (x ∷ xs) h = (h.0, All-map P g xs h.1)

  pub All-of_map :
      (P : B → Type 0) (g : A → B) (xs : List A) → All P (map g xs) → All (λ x. P (g x)) xs
  All-of_map P g [] h = tt
  All-of_map P g (x ∷ xs) h = (h.0, All-of_map P g xs h.1)

  pub Any-of_map :
      (P : B → Type 0) (g : A → B) (xs : List A) → Any P (map g xs) → Any (λ x. P (g x)) xs
  Any-of_map P g [] h = absurd h
  Any-of_map P g (x ∷ xs) (inl h) = inl h
  Any-of_map P g (x ∷ xs) (inr h) = inr (Any-of_map P g xs h)
