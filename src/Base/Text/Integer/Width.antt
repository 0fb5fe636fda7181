-- ===== src/Base/Text/Integer/Width.antt =====
-- How many digits a number has in decimal.
use Prim.Native.Nat.{ℕ, zero, suc, ◌+◌, ◌*◌, ◌/◌, ◌%◌, ◌≤◌, ◌<◌}
use mathlib.Core.Path.{◌≡◌}
use mathlib.Core.List.{[], ◌∷◌}
use native.Mathlib.Omega.{arith}
use millionws.Base.Lists.{length, length-append}
use millionws.Base.Text.Integer.{decimal_from, decimal}

-- 10 ** k
abbrev pub power : ℕ → ℕ
power zero = 1
power (suc k) = 10 * power k

power-positive : (k : ℕ) → 1 ≤ power k
power-positive zero = omega arith
power-positive (suc k) = omega (arith, power-positive k)

length-decimal_from :
    (k f n : ℕ) → n < f → power k ≤ n → n < power (suc k) → length (decimal_from f n) ≡ suc k
unfolding decimal_from
length-decimal_from k zero n h lo hi = absurd (omega arith)
length-decimal_from zero (suc f) n h lo hi = ground arith
length-decimal_from (suc k) (suc f) n h lo hi = ground (
  arith,
  power-positive k,
  length-append (decimal_from f (n / 10)) ((b'0' + n % 10) ∷ []),
  length-decimal_from k f (n / 10) (omega (arith, power-positive k)) (omega arith) (omega arith),
)

pub length-decimal : (k n : ℕ) → power k ≤ n → n < power (suc k) → length (decimal n) ≡ suc k
unfolding decimal
length-decimal k n lo hi = length-decimal_from k (suc n) n (omega arith) lo hi
