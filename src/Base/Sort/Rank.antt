-- ===== src/Base/Sort/Rank.antt =====
-- Sorted lists of ints: what stands at a position, against the list that was sorted.
use Prim.Native.Nat.{ℕ, zero, suc, ◌+◌, ◌≤◌, ◌<◌}
use mathlib.Core.Path.{◌≡◌, refl, ap, subst, ◌∙◌}
use mathlib.Core.Logic.{inl, inr}
use mathlib.Core.Bool.{Bool}
use mathlib.Core.Option.{some, some-injective}
use mathlib.Core.List.{List, [], ◌∷◌}
use native.Mathlib.Omega.{arith}
use millionws.Base.Tests.{Bool-cases, if◌then◌else◌}
use millionws.Base.Lists.{length, get_elem?, All, All-map_of}
use millionws.Base.Int.{ℤ, ◌≤ℤ◌, ltb_ℤ, eqb_ℤ}
use millionws.Base.Sort.{insert_sorted, sorted}

abbrev pub count_if : (ℤ → Bool) → List ℤ → ℕ
count_if p [] = 0
count_if p (x ∷ xs) = let rest = count_if p xs in if p x then suc rest else rest

abbrev IsSorted : List ℤ → Type 0
IsSorted [] = Unit
IsSorted (x ∷ xs) = All (λ y. x ≤ℤ y) xs × IsSorted xs

All-insert_sorted :
    (b x : ℤ) (ys : List ℤ)
    → b ≤ℤ x
    → All (λ y. b ≤ℤ y) ys
    → All (λ y. b ≤ℤ y) (insert_sorted ltb_ℤ x ys)
unfolding insert_sorted
All-insert_sorted b x [] p h = (p, tt)
All-insert_sorted b x (y ∷ ys) p h = ground (arith, All-insert_sorted b x ys p h.1)

insert_sorted-IsSorted : (x : ℤ) (ys : List ℤ) → IsSorted ys → IsSorted (insert_sorted ltb_ℤ x ys)
unfolding insert_sorted
insert_sorted-IsSorted x [] h = (tt, tt)
insert_sorted-IsSorted x (y ∷ ys) h = elim (Bool-cases (ltb_ℤ y x)) [
  | inl e ↦ rw e (All-insert_sorted y x ys (ground arith) h.0, insert_sorted-IsSorted x ys h.1)
  | inr e ↦
      let below : x ≤ℤ y = ground arith in
      rw e ((below, All-map_of (λ z. λ (k : y ≤ℤ z). omega arith) ys h.0), h)
]

pub sorted-IsSorted : (xs : List ℤ) → IsSorted (sorted ltb_ℤ xs)
unfolding sorted
sorted-IsSorted [] = tt
sorted-IsSorted (x ∷ xs) = insert_sorted-IsSorted x (sorted ltb_ℤ xs) (sorted-IsSorted xs)

count_if-insert_sorted :
    (p : ℤ → Bool) (x : ℤ) (ys : List ℤ)
    → count_if p (insert_sorted ltb_ℤ x ys) ≡ count_if p (x ∷ ys)
unfolding insert_sorted
count_if-insert_sorted p x [] = refl
count_if-insert_sorted p x (y ∷ ys) = ground (arith, count_if-insert_sorted p x ys)

pub count_if-sorted : (p : ℤ → Bool) (xs : List ℤ) → count_if p (sorted ltb_ℤ xs) ≡ count_if p xs
unfolding sorted
count_if-sorted p [] = refl
count_if-sorted p (x ∷ xs) =
    count_if-insert_sorted p x (sorted ltb_ℤ xs)
    ∙ ap (λ n. if p x then suc n else n) (count_if-sorted p xs)

length-insert_sorted : (x : ℤ) (ys : List ℤ) → length (insert_sorted ltb_ℤ x ys) ≡ suc (length ys)
unfolding insert_sorted
length-insert_sorted x [] = refl
length-insert_sorted x (y ∷ ys) = ground (arith, length-insert_sorted x ys)

pub length-sorted : (xs : List ℤ) → length (sorted ltb_ℤ xs) ≡ length xs
unfolding sorted
length-sorted [] = refl
length-sorted (x ∷ xs) = length-insert_sorted x (sorted ltb_ℤ xs) ∙ ap suc (length-sorted xs)

none_below : (m : ℤ) (xs : List ℤ) → All (λ y. m ≤ℤ y) xs → count_if (λ k. ltb_ℤ k m) xs ≡ 0
none_below m [] h = refl
none_below m (x ∷ xs) h = ground (arith, none_below m xs h.1)

count_if-le-length : (p : ℤ → Bool) (xs : List ℤ) → count_if p xs ≤ length xs
count_if-le-length p [] = omega arith
count_if-le-length p (x ∷ xs) = ground (arith, count_if-le-length p xs)

All-at : (b m : ℤ) (xs : List ℤ) (i : ℕ) → All (λ y. b ≤ℤ y) xs → get_elem? xs i ≡ some m → b ≤ℤ m
All-at b m [] i h e = cc
All-at b m (x ∷ xs) zero h e = ground arith
All-at b m (x ∷ xs) (suc i) h e = All-at b m xs i h.1 e

-- What stands at the position `i` of a sorted list, against the rest of it.
abbrev pub IsAtRank : ℤ → ℕ → List ℤ → Type 0
IsAtRank m i xs =
    (count_if (λ k. ltb_ℤ k m) xs ≤ i)
    × (suc (count_if (λ k. ltb_ℤ m k) xs + i) ≤ length xs)
    × (1 ≤ count_if (λ k. eqb_ℤ k m) xs)

sorted_head : (x : ℤ) (xs : List ℤ) → IsSorted (x ∷ xs) → IsAtRank x 0 (x ∷ xs)
sorted_head x xs h = ground (arith, none_below x xs h.0, count_if-le-length (λ k. ltb_ℤ x k) xs)

pub sorted_at :
    (m : ℤ) (xs : List ℤ) (i : ℕ) → IsSorted xs → get_elem? xs i ≡ some m → IsAtRank m i xs
sorted_at m [] i h e = cc
sorted_at m (x ∷ xs) zero h e =
    subst (λ k. IsAtRank k 0 (x ∷ xs)) (some-injective _ _ e) (sorted_head x xs h)
sorted_at m (x ∷ xs) (suc i) h e =
    let below = All-at x m xs i h.0 e in let (a, b, c) = sorted_at m xs i h.1 e in ground arith

pub get_elem?-in : (xs : List ℤ) (i : ℕ) → i < length xs → (m : ℤ) × (get_elem? xs i ≡ some m)
get_elem?-in [] i h = absurd (omega arith)
get_elem?-in (x ∷ xs) zero h = (x, refl)
get_elem?-in (x ∷ xs) (suc i) h = get_elem?-in xs i (omega arith)

unsorted-IsAtRank : (m : ℤ) (i : ℕ) (xs : List ℤ) → IsAtRank m i (sorted ltb_ℤ xs) → IsAtRank m i xs
unsorted-IsAtRank m i xs (a, b, c) =
    let smaller = count_if-sorted (λ k. ltb_ℤ k m) xs in
    let greater = count_if-sorted (λ k. ltb_ℤ m k) xs in
    let equal = count_if-sorted (λ k. eqb_ℤ k m) xs in
    let same = length-sorted xs in (omega arith, omega arith, omega arith)

-- The value that sorting brings to a position of the list.
pub sorted_in :
    (xs : List ℤ) (i : ℕ)
    → i < length xs
    → (m : ℤ) × (get_elem? (sorted ltb_ℤ xs) i ≡ some m) × IsAtRank m i xs
sorted_in xs i h =
    let ordered = sorted ltb_ℤ xs in
    let (m, e) = get_elem?-in ordered i (rw (length-sorted xs) h) in
    (m, e, unsorted-IsAtRank m i xs (sorted_at m ordered i (sorted-IsSorted xs) e))
