-- ===== src/Evidence/Url/Unquote.antt =====
-- A quoted text of a URL as the server reads it: a plus sign is a space, and a percent sign leads two
-- digits of base 16.
use millionws.Base.{
  ℕ, ◌+◌, ◌-◌, ◌*◌, ◌/◌, ◌%◌, ◌<◌, ◌≡◌, ◌≢◌, refl, ap, ◌∙◌, List, [], ◌∷◌, ◌++◌, All, true, false,
  ◌⊎◌, arith, append_assoc, append-nil, if◌then◌else◌, leb, ◌==◌,
}
use millionws.Base.Text.{Text}
use millionws.Evidence.Url.{is_surrogate, scalar_bytes, hex_digit, quote_byte, quote_bytes}
use millionws.Evidence.Url.Total.{is_clean, bytes, quoted}

pub data Mode : Type 0 where
  plain : Mode
  percent : Mode
  digit : ℕ → Mode

abbrev pub hex_value : ℕ → ℕ
hex_value c = if leb c b'9' then c - b'0' else c - 55

unquote_from : Mode → Text → List ℕ
unquote_from m [] = []
unquote_from plain (c ∷ s) =
    let escaped = unquote_from percent s in
    let rest = unquote_from plain s in
    if c == b'%' then escaped else (if c == b'+' then b' ' else c) ∷ rest
unquote_from percent (c ∷ s) = unquote_from (digit (hex_value c)) s
unquote_from (digit h) (c ∷ s) = (16 * h + hex_value c) ∷ unquote_from plain s

-- The bytes that a quoted text stands for.
unfoldable pub unquote : Text → List ℕ
unfolding unquote_from
unquote s = unquote_from plain s

abbrev pub IsSafe : Text → Type 0
IsSafe = All (λ c. (c ≢ b'&') × (c ≢ b'='))

IsSafe-append : (s t : Text) → IsSafe s → IsSafe t → IsSafe (s ++ t)
IsSafe-append [] t hs ht = ht
IsSafe-append (c ∷ s) t hs ht = (hs.0, IsSafe-append s t hs.1 ht)

-- A byte that may stand in a text's UTF-8.
abbrev IsBytes : List ℕ → Type 0
IsBytes = All (λ b. b < 256)

hex_value-hex_digit : (n : ℕ) → n < 16 → hex_value (hex_digit n) ≡ n
hex_value-hex_digit n h = ground arith

hex_digit-IsSafe : (n : ℕ) → n < 16 → (hex_digit n ≢ b'&') × (hex_digit n ≢ b'=')
hex_digit-IsSafe n h = ground arith

unquote-quote_byte :
    (b : ℕ) (s : Text) → b < 256 → unquote_from plain (quote_byte b ++ s) ≡ b ∷ unquote_from plain s
unfolding unquote_from
unquote-quote_byte b s h =
    ground (arith, hex_value-hex_digit (b / 16), hex_value-hex_digit (b % 16))

quote_byte-IsSafe : (b : ℕ) → b < 256 → IsSafe (quote_byte b)
quote_byte-IsSafe b h = ground (arith, hex_digit-IsSafe (b / 16), hex_digit-IsSafe (b % 16))

unquote_from-quote_bytes :
    (bs : List ℕ) (s : Text)
    → IsBytes bs
    → unquote_from plain (quote_bytes bs ++ s) ≡ bs ++ unquote_from plain s
unfolding quote_bytes
unquote_from-quote_bytes [] s h = refl
unquote_from-quote_bytes (b ∷ bs) s h =
    ap (unquote_from plain) (append_assoc (quote_byte b) (quote_bytes bs) s)
    ∙ unquote-quote_byte b (quote_bytes bs ++ s) h.0
    ∙ ap (λ l. b ∷ l) (unquote_from-quote_bytes bs s h.1)

quote_bytes-IsSafe : (bs : List ℕ) → IsBytes bs → IsSafe (quote_bytes bs)
unfolding quote_bytes
quote_bytes-IsSafe [] h = tt
quote_bytes-IsSafe (b ∷ bs) h =
    IsSafe-append (quote_byte b) (quote_bytes bs) (quote_byte-IsSafe b h.0)
      (quote_bytes-IsSafe bs h.1)

-- The code points of Unicode that are no surrogates.
abbrev pub IsUnicode : Text → Type 0
IsUnicode = All (λ c. (c < 0x110000) × ((c < 0xd800) ⊎ (0xdfff < c)))

no_surrogate : (c : ℕ) → (c < 0xd800) ⊎ (0xdfff < c) → is_surrogate c ≡ false
no_surrogate c h = ground arith

pub IsUnicode-is_clean : (s : Text) → IsUnicode s → is_clean s ≡ true
IsUnicode-is_clean [] h = refl
IsUnicode-is_clean (c ∷ s) h = rw (no_surrogate c h.0.1, IsUnicode-is_clean s h.1) refl

scalar_bytes-IsBytes : (c : ℕ) → c < 0x110000 → IsBytes (scalar_bytes c)
scalar_bytes-IsBytes c h = ground arith

IsBytes-append : (xs ys : List ℕ) → IsBytes xs → IsBytes ys → IsBytes (xs ++ ys)
IsBytes-append [] ys hx hy = hy
IsBytes-append (x ∷ xs) ys hx hy = (hx.0, IsBytes-append xs ys hx.1 hy)

bytes-IsBytes : (s : Text) → IsUnicode s → IsBytes (bytes s)
unfolding bytes
bytes-IsBytes [] h = tt
bytes-IsBytes (c ∷ s) h =
    IsBytes-append (scalar_bytes c) (bytes s) (scalar_bytes-IsBytes c h.0.0) (bytes-IsBytes s h.1)

pub unquote-quoted : (s : Text) → IsUnicode s → unquote (quoted s) ≡ bytes s
unfolding unquote quoted
unquote-quoted s h =
    rw (← append-nil (quote_bytes (bytes s)))
      (unquote_from-quote_bytes (bytes s) [] (bytes-IsBytes s h) ∙ append-nil (bytes s))

pub quoted-IsSafe : (s : Text) → IsUnicode s → IsSafe (quoted s)
unfolding quoted
quoted-IsSafe s h = quote_bytes-IsSafe (bytes s) (bytes-IsBytes s h)
