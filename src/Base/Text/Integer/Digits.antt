-- ===== src/Base/Text/Integer/Digits.antt =====
-- `int(str(n))` is `n`, and what `str(n)` prints are digits.
use Prim.Native.Nat.{ℕ, zero, suc, ◌+◌, ◌-◌, ◌*◌, ◌/◌, ◌%◌, ◌<◌}
use mathlib.Core.Path.{◌≡◌, refl, ◌∙◌}
use mathlib.Core.Logic.{◌≢◌, inl, inr}
use mathlib.Core.Bool.{true, false}
use mathlib.Core.Option.{some}
use mathlib.Core.List.{[], ◌∷◌, ◌++◌}
use native.Mathlib.Omega.{arith}
use millionws.Base.Tests.{ltb, Bool-cases}
use millionws.Base.Lists.{All}
use millionws.Base.Int.{pos}
use millionws.Base.Text.{Text, is_space, strip}
use millionws.Base.Text.Words.{IsSolid, strip-solid}
use millionws.Base.Text.Integer.{is_digit, digits_from, int_of_text, signed, decimal_from, decimal}

abbrev pub IsDigits : Text → Type 0
IsDigits = All (λ c. is_digit c ≡ true)

unfoldable pub value_from : ℕ → Text → ℕ
value_from acc [] = acc
value_from acc (c ∷ s) = value_from (acc * 10 + (c - b'0')) s

value_from-append :
    (acc : ℕ) (s : Text) (c : ℕ)
    → value_from acc (s ++ (c ∷ [])) ≡ value_from acc s * 10 + (c - b'0')
unfolding value_from
value_from-append acc [] c = refl
value_from-append acc (d ∷ s) c = value_from-append (acc * 10 + (d - b'0')) s c

digits_from-eq :
    (acc : ℕ) (s : Text) → IsDigits s → digits_from true acc s ≡ some (value_from acc s)
unfolding digits_from value_from
digits_from-eq acc [] h = refl
digits_from-eq acc (c ∷ s) h = rw (h.0, digits_from-eq (acc * 10 + (c - b'0')) s h.1) refl

digits_from-first :
    (acc c : ℕ) (s : Text)
    → IsDigits (c ∷ s)
    → digits_from false acc (c ∷ s) ≡ some (value_from acc (c ∷ s))
unfolding digits_from value_from
digits_from-first acc c s h = rw (h.0, digits_from-eq (acc * 10 + (c - b'0')) s h.1) refl

IsDigits-append : (s : Text) (c : ℕ) → IsDigits s → is_digit c ≡ true → IsDigits (s ++ (c ∷ []))
IsDigits-append [] c h d = (d, tt)
IsDigits-append (x ∷ s) c h d = (h.0, IsDigits-append s c h.1 d)

decimal_from-IsDigits : (f n : ℕ) → IsDigits (decimal_from f n)
unfolding decimal_from
decimal_from-IsDigits zero n = tt
decimal_from-IsDigits (suc f) n = elim (Bool-cases (ltb n 10)) [
  | inl small ↦ rw small (ground arith, tt)
  | inr large ↦ rw large (
      IsDigits-append (decimal_from f (n / 10)) _ (decimal_from-IsDigits f (n / 10)) (ground arith))
]

value-decimal_from : (f n : ℕ) → n < f → value_from 0 (decimal_from f n) ≡ n
unfolding decimal_from
value-decimal_from zero n h = absurd (omega arith)
value-decimal_from (suc f) n h = elim (Bool-cases (ltb n 10)) [
  | inl small ↦ rw small (unfold value_from in omega arith)
  | inr large ↦ rw large (
      value_from-append 0 (decimal_from f (n / 10)) (b'0' + n % 10)
      ∙ ground (arith, value-decimal_from f (n / 10)))
]

pub decimal-IsDigits : (n : ℕ) → IsDigits (decimal n)
unfolding decimal
decimal-IsDigits n = decimal_from-IsDigits (suc n) n

solid_of_digit : (c : ℕ) → is_digit c ≡ true → is_space c ≡ false
solid_of_digit c h = ground arith

pub IsDigits-IsSolid : (s : Text) → IsDigits s → IsSolid s
IsDigits-IsSolid [] h = tt
IsDigits-IsSolid (c ∷ s) h = (solid_of_digit c h.0, IsDigits-IsSolid s h.1)

snoc-ne-nil : (s : Text) (c : ℕ) → s ++ (c ∷ []) ≢ []
snoc-ne-nil [] c h = cc
snoc-ne-nil (d ∷ s) c h = cc

pub decimal-ne-nil : (n : ℕ) → decimal n ≢ []
unfolding decimal decimal_from
decimal-ne-nil n h = elim (Bool-cases (ltb n 10)) [
  | inl small ↦ ground arith
  | inr large ↦ snoc-ne-nil (decimal_from n (n / 10)) (b'0' + n % 10) (rw large at h)
]

signed-digits : (s : Text) → IsDigits s → s ≢ [] → signed s ≡ some (pos (value_from 0 s))
signed-digits [] h ne = absurd (ne refl)
signed-digits (c ∷ s) h ne = ground (arith, digits_from-first 0 c s h)

int_of_text-eq : (s : Text) → int_of_text s ≡ signed (strip s)
unfolding int_of_text
int_of_text-eq s = refl

pub value-decimal : (n : ℕ) → value_from 0 (decimal n) ≡ n
unfolding decimal
value-decimal n = value-decimal_from (suc n) n (omega arith)

-- Printing a number and reading it back gives the number.
pub int_of_text-decimal : (n : ℕ) → int_of_text (decimal n) ≡ some (pos n)
int_of_text-decimal n =
    int_of_text-eq (decimal n)
    ∙ rw
        (
          strip-solid (decimal n) (IsDigits-IsSolid (decimal n) (decimal-IsDigits n)),
          signed-digits (decimal n) (decimal-IsDigits n) (decimal-ne-nil n),
          value-decimal n,
        )
        refl
