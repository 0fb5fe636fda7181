-- ===== src/Server/Text.antt =====
-- What the server reads of texts: `strings.TrimSpace` and `strconv.ParseInt(s, 10, 64)`, which `Atoi`
-- also is where an int has 64 bits.
pub mod Decimal
use millionws.Base.{
  ℕ, ◌+◌, ◌-◌, ◌*◌, ◌^◌, Bool, ◌&&◌, ◌||◌, Option, none, some, [], ◌∷◌, if◌then◌else◌, ltb, leb,
  ◌==◌,
}
use millionws.Base.Int.{ℤ, pos, negsuc, sub_ℕ}
use millionws.Base.Text.{Text}
use millionws.Base.Text.Integer.{is_digit}

-- `unicode.IsSpace`
abbrev pub is_space : ℕ → Bool
is_space c =
    (leb 9 c && leb c 13)
    || (c == 32
        || (c == 0x85
            || (c == 0xa0
                || (c == 0x1680
                    || ((leb 0x2000 c && leb c 0x200a)
                        || (c == 0x2028
                            || (c == 0x2029 || (c == 0x202f || (c == 0x205f || c == 0x3000)))))))))

trim_left : Text → Text
trim_left [] = []
trim_left (c ∷ s) = let rest = trim_left s in if is_space c then rest else c ∷ s

trim_right : Text → Text
trim_right [] = []
trim_right (c ∷ s) = elim (trim_right s) [
  | [] ↦ if is_space c then [] else c ∷ []
  | d ∷ t ↦ c ∷ d ∷ t
]

-- `strings.TrimSpace(s)`
unfoldable pub trim : Text → Text
unfolding trim_left trim_right
trim s = trim_right (trim_left s)

-- The number that decimal digits spell behind a number that was read.
digits_behind : ℕ → Text → Option ℕ
digits_behind n [] = some n
digits_behind n (c ∷ s) =
    let more = digits_behind (n * 10 + (c - b'0')) s in if is_digit c then more else none

digits : Text → Option ℕ
unfolding digits_behind
digits [] = none
digits (c ∷ s) = digits_behind 0 (c ∷ s)

-- A number within the bounds of an int64.
abbrev pub in_int64 : ℤ → Option ℤ
in_int64 (pos n) = if ltb n (2 ^ 63) then some (pos n) else none
in_int64 (negsuc n) = if ltb n (2 ^ 63) then some (negsuc n) else none

abbrev pub with_sign : (ℕ → ℤ) → Option ℕ → Option ℤ
with_sign sign none = none
with_sign sign (some n) = in_int64 (sign n)

unfoldable pub parse_int : Text → Option ℤ
unfolding digits
parse_int [] = none
parse_int (c ∷ s) =
    if c == b'-'
    then with_sign (sub_ℕ 0) (digits s)
    else if c == b'+'
    then with_sign pos (digits s)
    else with_sign pos (digits (c ∷ s))
