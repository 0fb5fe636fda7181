-- ===== src/Base/Text/Integer.antt =====
-- `int(s)` of a string, and `str(n)` of a number in decimal.
pub mod Digits
pub mod Width
use Prim.Native.Nat.{ℕ, zero, suc, ◌+◌, ◌-◌, ◌*◌, ◌/◌, ◌%◌}
use mathlib.Core.Bool.{Bool, true, false, ◌&&◌}
use mathlib.Core.Option.{Option, none, some}
use mathlib.Core.Option
use mathlib.Core.List.{[], ◌∷◌, ◌++◌}
use millionws.Base.Tests.{leb, ltb, ◌==◌, if◌then◌else◌}
use millionws.Base.Int.{ℤ, pos, negsuc, negate}
use millionws.Base.Text.{Text, strip}

abbrev pub is_digit : ℕ → Bool
is_digit c = leb b'0' c && leb c b'9'

-- Decimal digits, with single underscores between them; `open` says that the last character read
-- was a digit.
unfoldable pub digits_from : Bool → ℕ → Text → Option ℕ
digits_from true acc [] = some acc
digits_from false acc [] = none
digits_from after_digit acc (c ∷ s) =
    let more = digits_from true (acc * 10 + (c - b'0')) s in
    let gap = digits_from false acc s in
    if is_digit c then more else if after_digit && c == b'_' then gap else none

abbrev signed : Text → Option ℤ
signed [] = none
signed (c ∷ s) =
    if c == b'-'
    then Option.map negate (Option.map pos (digits_from false 0 s))
    else if c == b'+'
    then Option.map pos (digits_from false 0 s)
    else Option.map pos (digits_from false 0 (c ∷ s))

-- `int(s)`; `none` is its `ValueError`.
unfoldable pub int_of_text : Text → Option ℤ
unfolding strip digits_from negate
int_of_text s = signed (strip s)

-- `str(n)`, on fuel: a number has fewer digits than its value and one.
decimal_from : ℕ → ℕ → Text
decimal_from zero n = []
decimal_from (suc f) n =
    let rest = decimal_from f (n / 10) in
    if ltb n 10 then (b'0' + n) ∷ [] else rest ++ ((b'0' + n % 10) ∷ [])

unfoldable pub decimal : ℕ → Text
unfolding decimal_from
decimal n = decimal_from (suc n) n

-- `str(n)` of an int.
abbrev pub decimal_ℤ : ℤ → Text
decimal_ℤ (pos n) = decimal n
decimal_ℤ (negsuc n) = b'-' ∷ decimal (suc n)
