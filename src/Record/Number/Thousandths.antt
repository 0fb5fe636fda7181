-- ===== src/Record/Number/Thousandths.antt =====
-- Decimal numbers of three places, with NaN: numbers that meet the laws of `IsFloat` and run in tests.
use millionws.Base.{
  ℕ, ◌+◌, ◌*◌, ◌/◌, ◌^◌, ◌≡◌, refl, Bool, true, false, ◌||◌, Option, none, some, List, [], ◌∷◌,
  arith, if◌then◌else◌,
}
use millionws.Base.Int.{
  ℤ, pos, negsuc, pos_part, neg_part, sub_ℕ, scale, ◌+ℤ◌, ◌-ℤ◌, ltb_ℤ, leb_ℤ, eqb_ℤ,
}
use millionws.Base.Text.{Text, codes, text_eq}
use millionws.Base.Text.Integer.{int_of_text, decimal_ℤ}
use millionws.Base.Result.{Result, ok, raised, value_error}
use millionws.Record.Number.{Float, IsFloat}

pub data Decimal : Type 0 where
  nan : Decimal
  places : ℤ → Decimal

abbrev both : (ℤ → ℤ → Bool) → Decimal → Decimal → Bool
both test (places a) (places b) = test a b
both test nan b = false
both test (places a) nan = false

abbrev lift : (ℤ → ℤ → ℤ) → Decimal → Decimal → Decimal
lift op (places a) (places b) = places (op a b)
lift op nan b = nan
lift op (places a) nan = nan

-- The product, cut off behind the third place.
abbrev mul_ℤ : ℤ → ℤ → ℤ
mul_ℤ a b =
    sub_ℕ ((pos_part a * pos_part b + neg_part a * neg_part b) / 1000)
      ((pos_part a * neg_part b + neg_part a * pos_part b) / 1000)

abbrev magnitude : ℤ → ℕ
magnitude a = pos_part a + neg_part a

abbrev div_ℤ : ℤ → ℤ → ℤ
div_ℤ a b =
    sub_ℕ ((pos_part a * pos_part b + neg_part a * neg_part b) * 1000 / (magnitude b * magnitude b))
      ((pos_part a * neg_part b + neg_part a * pos_part b) * 1000 / (magnitude b * magnitude b))

-- The whole part, and the nearest multiple of `k` places in units of `k`.
abbrev whole : ℤ → ℤ
whole a = sub_ℕ (pos_part a / 1000) (neg_part a / 1000)

abbrev nearest : ℕ → ℤ → ℤ
nearest k a = sub_ℕ ((pos_part a + k / 2) / k) ((neg_part a + k / 2) / k)

abbrev to_ℤ : (ℤ → ℤ) → Decimal → Result ℤ
to_ℤ g nan = raised value_error
to_ℤ g (places a) = ok (g a)

abbrev shown : Decimal → Text
shown nan = codes "nan"
shown (places a) = decimal_ℤ (nearest 1000 a)

read_decimal : Text → Option Decimal
read_decimal s =
    if text_eq s (codes "NaN") || text_eq s (codes "nan")
    then some nan
    else elim (int_of_text s) [ none ↦ none | some n ↦ some (places (scale 1000 n)) ]

add_all : List Decimal → Decimal
unfolding ◌+ℤ◌
add_all [] = places (pos 0)
add_all (x ∷ xs) = lift (λ a b. a +ℤ b) x (add_all xs)

abbrev tenths : Decimal → Decimal
tenths nan = nan
tenths (places a) = places (scale 100 (nearest 100 a))

unfoldable pub thousandths : Float
unfolding scale ◌+ℤ◌ ◌-ℤ◌ read_decimal add_all
thousandths = record {
  Carrier = Decimal;
  of_int = λ n. places (scale 1000 n);
  literal = λ n k. places (pos (n * 1000 / 10 ^ k));
  parse = read_decimal;
  lt = both ltb_ℤ;
  le = both leb_ℤ;
  eq = both eqb_ℤ;
  sum = add_all;
  add = lift (λ a b. a +ℤ b);
  sub = lift (λ a b. a -ℤ b);
  mul = lift mul_ℤ;
  quotient = lift div_ℤ;
  truncate = to_ℤ whole;
  round_int = to_ℤ (nearest 1000);
  round_1 = tenths;
  fixed = λ k x. shown x;
  plain = λ k x. shown x;
  repr = shown;
}

abbrev lte : Decimal → Decimal → Bool
lte = both leb_ℤ

abbrev lts : Decimal → Decimal → Bool
lts = both ltb_ℤ

abbrev same : Decimal → Decimal → Bool
same = both eqb_ℤ

abbrev zero_places : Decimal
zero_places = places (pos 0)

left_number : (x y : Decimal) → lte x y ≡ true → same x x ≡ true
left_number nan y h = cc
left_number (places a) y h = ground arith

right_number : (x y : Decimal) → lte x y ≡ true → same y y ≡ true
right_number nan y h = cc
right_number (places a) nan h = cc
right_number (places a) (places b) h = ground arith

lte_self : (x : Decimal) → same x x ≡ true → lte x x ≡ true
lte_self nan h = cc
lte_self (places a) h = ground arith

lte_trans : (x y z : Decimal) → lte x y ≡ true → lte y z ≡ true → lte x z ≡ true
lte_trans nan y z h k = cc
lte_trans (places a) nan z h k = cc
lte_trans (places a) (places b) nan h k = cc
lte_trans (places a) (places b) (places c) h k = ground arith

lte_of_lts : (x y : Decimal) → lts x y ≡ true → lte x y ≡ true
lte_of_lts nan y h = cc
lte_of_lts (places a) nan h = cc
lte_of_lts (places a) (places b) h = ground arith

lte_of_not_lts :
    (x y : Decimal) → same x x ≡ true → same y y ≡ true → lts x y ≡ false → lte y x ≡ true
lte_of_not_lts nan y hx hy h = cc
lte_of_not_lts (places a) nan hx hy h = cc
lte_of_not_lts (places a) (places b) hx hy h = ground arith

shrink : (x : Decimal) → lte zero_places x ≡ true → lte (lift mul_ℤ (places (pos 995)) x) x ≡ true
shrink nan h = cc
shrink (places (pos n)) h = ground arith
shrink (places (negsuc n)) h = ground arith

grow : (x : Decimal) → lte zero_places x ≡ true → lte x (lift mul_ℤ x (places (pos 1005))) ≡ true
grow nan h = cc
grow (places (pos n)) h = ground arith
grow (places (negsuc n)) h = ground arith

pub thousandths-IsFloat : IsFloat thousandths
unfolding thousandths
thousandths-IsFloat = record {
  zero_le = refl;
  eq_of_le_left = left_number;
  eq_of_le_right = right_number;
  le_self = lte_self;
  le_trans = lte_trans;
  le_of_lt = lte_of_lts;
  le_of_not_lt = lte_of_not_lts;
  shrink_le = shrink;
  le_grow = grow;
}
