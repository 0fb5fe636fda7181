-- ===== src/Base/Sort/Increasing.antt =====
-- Sorted lists of strings: they increase, and they have the elements of the list that was sorted.
use mathlib.Core.Path.{◌≡◌, refl, ap, ◌∙◌}
use mathlib.Core.Logic.{inl, inr}
use mathlib.Core.Bool.{true, false, ◌||◌}
use mathlib.Core.List.{List, [], ◌∷◌}
use native.Mathlib.Omega.{arith}
use millionws.Base.Tests.{Bool-cases}
use millionws.Base.Lists.{All, All-map_of}
use millionws.Base.Text.{Text, text_eq, member, IsFresh}
use millionws.Base.Sort.{text_lt, insert_sorted, sorted}

pub text_lt_trans : (a b c : Text) → text_lt a b ≡ true → text_lt b c ≡ true → text_lt a c ≡ true
unfolding text_lt
text_lt_trans a b [] h k = ground arith
text_lt_trans a [] (z ∷ c) h k = ground arith
text_lt_trans [] (y ∷ b) (z ∷ c) h k = refl
text_lt_trans (x ∷ a) (y ∷ b) (z ∷ c) h k = ground (arith, text_lt_trans a b c)

pub text_lt_other : (a b : Text) → text_lt a b ≡ false → text_eq b a ≡ false → text_lt b a ≡ true
unfolding text_lt text_eq
text_lt_other [] [] h k = ground arith
text_lt_other [] (y ∷ b) h k = ground arith
text_lt_other (x ∷ a) [] h k = refl
text_lt_other (x ∷ a) (y ∷ b) h k = ground (arith, text_lt_other a b)

-- Each text stands before those behind it in the order, and so is none of them.
abbrev pub IsIncreasing : List Text → Type 0
IsIncreasing [] = Unit
IsIncreasing (x ∷ xs) = All (λ y. text_lt x y ≡ true) xs × IsIncreasing xs

All-insert_sorted :
    (P : Text → Type 0) (x : Text) (ys : List Text)
    → P x
    → All P ys
    → All P (insert_sorted text_lt x ys)
unfolding insert_sorted
All-insert_sorted P x [] p h = (p, tt)
All-insert_sorted P x (y ∷ ys) p h = elim (Bool-cases (text_lt y x)) [
  | inl e ↦ rw e (h.0, All-insert_sorted P x ys p h.1)
  | inr e ↦ rw e (p, h)
]

member-insert_sorted :
    (z x : Text) (ys : List Text)
    → member z (insert_sorted text_lt x ys) ≡ (text_eq z x || member z ys)
unfolding insert_sorted member
member-insert_sorted z x [] = refl
member-insert_sorted z x (y ∷ ys) = ground (arith, member-insert_sorted z x ys)

pub member-sorted : (z : Text) (xs : List Text) → member z (sorted text_lt xs) ≡ member z xs
unfolding sorted member
member-sorted z [] = refl
member-sorted z (x ∷ xs) =
    member-insert_sorted z x (sorted text_lt xs) ∙ ap (λ b. text_eq z x || b) (member-sorted z xs)

insert_sorted-IsIncreasing :
    (x : Text) (ys : List Text)
    → member x ys ≡ false
    → IsIncreasing ys
    → IsIncreasing (insert_sorted text_lt x ys)
unfolding insert_sorted member
insert_sorted-IsIncreasing x [] m h = (tt, tt)
insert_sorted-IsIncreasing x (y ∷ ys) m h = elim (Bool-cases (text_lt y x)) [
  | inl e ↦ rw e (
    All-insert_sorted (λ z. text_lt y z ≡ true) x ys e h.0,
    insert_sorted-IsIncreasing x ys (ground arith) h.1,
  )
  | inr e ↦
      let before = text_lt_other y x e (ground arith) in
      rw e (
        (before, All-map_of (λ z. λ (k : text_lt y z ≡ true). text_lt_trans x y z before k) ys h.0),
        h,
      )
]

pub sorted-IsIncreasing : (xs : List Text) → IsFresh xs → IsIncreasing (sorted text_lt xs)
unfolding sorted
sorted-IsIncreasing [] h = tt
sorted-IsIncreasing (x ∷ xs) h =
    insert_sorted-IsIncreasing x (sorted text_lt xs) (member-sorted x xs ∙ h.0)
      (sorted-IsIncreasing xs h.1)
