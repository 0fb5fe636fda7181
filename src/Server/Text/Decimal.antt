-- ===== src/Server/Text/Decimal.antt =====
-- A number that is printed in decimal is read back, and what is read fits an int64.
use millionws.Base.{
  ℕ, ◌+◌, ◌*◌, ◌-◌, ◌^◌, ◌<◌, ◌≡◌, ◌≢◌, refl, ap, ◌∙◌, inl, inr, false, Bool-cases, Option, none,
  some, [], ◌∷◌, All, ◌==◌, arith,
}
use millionws.Base.Int.{ℤ, pos, negsuc, sub_ℕ}
use millionws.Base.Text.{Text}
use millionws.Base.Text.Integer.{decimal}
use millionws.Base.Text.Integer.Digits.{
  IsDigits, value_from, value-decimal, decimal-IsDigits, decimal-ne-nil,
}
use millionws.Server.Text.{
  is_space, trim_left, trim_right, trim, digits_behind, digits, in_int64, with_sign, parse_int,
}

digits_behind-eq : (n : ℕ) (s : Text) → IsDigits s → digits_behind n s ≡ some (value_from n s)
unfolding digits_behind value_from
digits_behind-eq n [] h = refl
digits_behind-eq n (c ∷ s) h = rw (h.0, digits_behind-eq (n * 10 + (c - b'0')) s h.1) refl

parse_int-digits :
    (s : Text)
    → IsDigits s
    → s ≢ []
    → value_from 0 s < 2 ^ 63
    → parse_int s ≡ some (pos (value_from 0 s))
unfolding parse_int digits
parse_int-digits [] h ne fits = absurd (ne refl)
parse_int-digits (c ∷ s) h ne fits = ground (arith, digits_behind-eq 0 (c ∷ s) h)

pub parse_int-decimal : (n : ℕ) → n < 2 ^ 63 → parse_int (decimal n) ≡ some (pos n)
parse_int-decimal n h =
    parse_int-digits (decimal n) (decimal-IsDigits n) (decimal-ne-nil n) (rw (value-decimal n) h)
    ∙ ap (λ k. some (pos k)) (value-decimal n)

with_sign-bound :
    (sign : ℕ → ℤ) (o : Option ℕ) {n : ℕ} → with_sign sign o ≡ some (pos n) → n < 2 ^ 63
with_sign-bound sign none h = cc
with_sign-bound sign (some m) h = in_int64-bound (sign m) h
  where
    in_int64-bound : (z : ℤ) {n : ℕ} → in_int64 z ≡ some (pos n) → n < 2 ^ 63
    in_int64-bound (pos m) h = ground arith
    in_int64-bound (negsuc m) h = ground arith

pub parse_int-bound : (s : Text) {n : ℕ} → parse_int s ≡ some (pos n) → n < 2 ^ 63
unfolding parse_int
parse_int-bound [] h = cc
parse_int-bound (c ∷ s) h = elim (Bool-cases (c == b'-')) [
  | inl e ↦ with_sign-bound (sub_ℕ 0) (digits s) (rw e at h)
  | inr e ↦ elim (Bool-cases (c == b'+')) [
    | inl d ↦ with_sign-bound pos (digits s) (rw (e, d) at h)
    | inr d ↦ with_sign-bound pos (digits (c ∷ s)) (rw (e, d) at h)
  ]
]

-- Neither at the start nor at the end, nor between, is there white space.
abbrev pub IsDense : Text → Type 0
IsDense = All (λ c. is_space c ≡ false)

trim_left-dense : (s : Text) → IsDense s → trim_left s ≡ s
unfolding trim_left
trim_left-dense [] h = refl
trim_left-dense (c ∷ s) h = rw h.0 refl

trim_right-dense : (s : Text) → IsDense s → trim_right s ≡ s
unfolding trim_right
trim_right-dense [] h = refl
trim_right-dense (c ∷ s) h = ground (arith, trim_right-dense s h.1)

pub trim-dense : (s : Text) → IsDense s → trim s ≡ s
unfolding trim
trim-dense s h = rw (trim_left-dense s h, trim_right-dense s h) refl
