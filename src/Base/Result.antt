-- ===== src/Base/Result.antt =====
-- Python's exceptions as values: a call returns, or raises one of the exceptions that the code meets.
use mathlib.Core.Path.{◌≡◌, refl}
use mathlib.Core.Logic.{◌≢◌, ◌⊎◌, inl, inr}
use mathlib.Core.Bool.{Bool, true, false}
use mathlib.Core.Option.{Option, none, some}

pub data Exception : Type 0 where
  value_error : Exception
  -- a ValueError of its own
  unicode_encode_error : Exception
  index_error : Exception
  key_error : Exception
  type_error : Exception
  attribute_error : Exception
  overflow_error : Exception
  zero_division_error : Exception
  called_process_error : Exception
  client_error : Exception

pub data Result {ℓ} (A : Type ℓ) : Type ℓ where
  ok : A → Result A
  raised : Exception → Result A

infixl 5 ◌>>=◌
-- What a call does with the value of the one before it; an exception passes by.
abbrev pub ◌>>=◌ {ℓ κ} : {A : Type ℓ} {B : Type κ} → Result A → (A → Result B) → Result B
raised e >>= next = raised e
ok a >>= next = next a

abbrev pub or_raise {ℓ} : {A : Type ℓ} → Option A → Exception → Result A
or_raise none e = raised e
or_raise (some a) e = ok a

pub ok_injective {ℓ} : {A : Type ℓ} (a b : A) → ◌≡◌ {A = Result A} (ok a) (ok b) → a ≡ b
ok_injective a b h = cc

pub raised-ne-ok {ℓ} : {A : Type ℓ} (e : Exception) (a : A) → ◌≢◌ {A = Result A} (raised e) (ok a)
raised-ne-ok e a h = cc

abbrev pub is_raised {ℓ} : {A : Type ℓ} → Result A → Bool
is_raised (ok a) = false
is_raised (raised e) = true

pub Result-cases {ℓ} :
    {A : Type ℓ} (r : Result A) → ((a : A) × (r ≡ ok a)) ⊎ ((e : Exception) × (r ≡ raised e))
Result-cases (ok a) = inl (a, refl)
Result-cases (raised e) = inr (e, refl)
