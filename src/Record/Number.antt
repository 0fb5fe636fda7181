-- ===== src/Record/Number.antt =====
-- Python's floats, as the scripts use them: a type with the operations that they call, and the
-- facts of IEEE 754 binary64 that the theorems rely on. An int meets a float as a `Num`.
pub mod Thousandths
use millionws.Base.{List, ◌≡◌, Bool, true, false, not, Option, none, some, ℕ}
use millionws.Base.Int.{ℤ, pos, ◌-ℤ◌}
use millionws.Base.Text.{Text}
use millionws.Base.Result.{Result, ok, raised, zero_division_error}

pub record Float : Type 1 where
  pub Carrier : Type 0
  -- The conversion that arithmetic makes of an int.
  pub of_int : ℤ → Carrier
  -- The literal `n * 10 ** -k`: `literal 1005 3` is `1.005`.
  pub literal : ℕ → ℕ → Carrier
  -- `float(s)`; `none` is its `ValueError`.
  pub parse : Text → Option Carrier
  -- `x < y`, `x <= y` and `x == y`.
  pub lt : Carrier → Carrier → Bool
  pub le : Carrier → Carrier → Bool
  pub eq : Carrier → Carrier → Bool
  -- `sum(xs)`
  pub sum : List Carrier → Carrier
  pub add : Carrier → Carrier → Carrier
  pub sub : Carrier → Carrier → Carrier
  pub mul : Carrier → Carrier → Carrier
  -- `x / y` where `y` is not zero.
  pub quotient : Carrier → Carrier → Carrier
  -- `int(x)`, and `round(x)`, which raise on infinities and NaN.
  pub truncate : Carrier → Result ℤ
  pub round_int : Carrier → Result ℤ
  -- `round(x, 1)`
  pub round_1 : Carrier → Carrier
  -- `f"{x:,.kf}"`
  pub fixed : ℕ → Carrier → Text
  -- `f"{x:.kf}"`
  pub plain : ℕ → Carrier → Text
  -- `f"{x}"`
  pub repr : Carrier → Text

abbrev pub zero_of : (f : Float) → f.Carrier
zero_of f = f.of_int (pos 0)

-- The comparisons order the numbers, and NaN compares false with everything; scaling a value that
-- is at least zero down by 0.5% does not raise it, and scaling it up does not lower it.
pub record IsFloat (f : Float) : Type 0 where
  pub zero_le : f.le (zero_of f) (zero_of f) ≡ true
  pub eq_of_le_left : (x y : f.Carrier) → f.le x y ≡ true → f.eq x x ≡ true
  pub eq_of_le_right : (x y : f.Carrier) → f.le x y ≡ true → f.eq y y ≡ true
  pub le_self : (x : f.Carrier) → f.eq x x ≡ true → f.le x x ≡ true
  pub le_trans : (x y z : f.Carrier) → f.le x y ≡ true → f.le y z ≡ true → f.le x z ≡ true
  pub le_of_lt : (x y : f.Carrier) → f.lt x y ≡ true → f.le x y ≡ true
  pub le_of_not_lt :
      (x y : f.Carrier) → f.eq x x ≡ true → f.eq y y ≡ true → f.lt x y ≡ false → f.le y x ≡ true
  pub shrink_le :
      (x : f.Carrier) → f.le (zero_of f) x ≡ true → f.le (f.mul (f.literal 995 3) x) x ≡ true
  pub le_grow :
      (x : f.Carrier) → f.le (zero_of f) x ≡ true → f.le x (f.mul x (f.literal 1005 3)) ≡ true

-- A number of the program: what a cgroup file holds is an int, what a metric holds is a float.
pub data Num (f : Float) : Type 0 where
  int : ℤ → Num f
  float : f.Carrier → Num f

module _ (f : Float) where
  abbrev pub to_float : Num f → f.Carrier
  to_float (int n) = f.of_int n
  to_float (float x) = x

  -- `bool(x)` of a float
  abbrev pub truthy : f.Carrier → Bool
  truthy x = not (f.eq x (zero_of f))

  -- `x or 0`, of a float or None. The int 0 is read as the float 0.
  abbrev pub or_zero : Option f.Carrier → f.Carrier
  or_zero none = zero_of f
  or_zero (some x) = elim (truthy x) [ true ↦ x | false ↦ zero_of f ]

  -- `a - b`
  unfoldable pub num_sub : Num f → Num f → Num f
  unfolding ◌-ℤ◌
  num_sub (int a) (int b) = int (a -ℤ b)
  num_sub (int a) (float b) = float (f.sub (f.of_int a) b)
  num_sub (float a) b = float (f.sub a (to_float b))

  -- `a / b` of floats
  unfoldable pub divide : f.Carrier → f.Carrier → Result f.Carrier
  divide a b = elim (truthy b) [ true ↦ ok (f.quotient a b) | false ↦ raised zero_division_error ]
