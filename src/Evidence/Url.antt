-- ===== src/Evidence/Url.antt =====
-- `urllib.parse.urlencode` of a dict of strings: UTF-8, with a percent sign for each byte that may not
-- stand in a URL, and a plus sign for a space.
pub mod Total
pub mod Unquote
pub mod Decode
use millionws.Base.{
  ℕ, ◌+◌, ◌/◌, ◌%◌, Bool, ◌&&◌, ◌||◌, List, [], ◌∷◌, ◌++◌, map, if◌then◌else◌, ltb, leb, ◌==◌,
}
use millionws.Base.Text.{Text}
use millionws.Base.Result.{Result, ok, raised, unicode_encode_error, ◌>>=◌}

abbrev pub is_surrogate : ℕ → Bool
is_surrogate c = leb 0xd800 c && leb c 0xdfff

-- The UTF-8 of a code point that is no surrogate.
abbrev pub scalar_bytes : ℕ → List ℕ
scalar_bytes c =
    if ltb c 0x80
    then c ∷ []
    else if ltb c 0x800
    then (0xc0 + c / 64) ∷ (0x80 + c % 64) ∷ []
    else if ltb c 0x10000
    then (0xe0 + c / 4096) ∷ (0x80 + c / 64 % 64) ∷ (0x80 + c % 64) ∷ []
    else (0xf0 + c / 262144) ∷ (0x80 + c / 4096 % 64) ∷ (0x80 + c / 64 % 64) ∷ (0x80 + c % 64) ∷ []

-- `s.encode("utf-8", "strict")`, of one code point and of a text.
abbrev pub utf8 : ℕ → Result (List ℕ)
utf8 c = if is_surrogate c then raised unicode_encode_error else ok (scalar_bytes c)

unfoldable pub encode : Text → Result (List ℕ)
encode [] = ok []
encode (c ∷ s) = do bytes ← utf8 c; rest ← encode s; ok (bytes ++ rest)

-- Letters, digits and "_.-~", which stand for themselves.
abbrev pub is_unreserved : ℕ → Bool
is_unreserved b =
    (leb b'a' b && leb b b'z')
    || ((leb b'A' b && leb b b'Z')
        || ((leb b'0' b && leb b b'9') || (b == b'_' || (b == b'.' || (b == b'-' || b == b'~')))))

abbrev pub hex_digit : ℕ → ℕ
hex_digit n = if ltb n 10 then b'0' + n else 55 + n

abbrev pub quote_byte : ℕ → Text
quote_byte b =
    if is_unreserved b
    then b ∷ []
    else if b == b' '
    then b'+' ∷ []
    else b'%' ∷ hex_digit (b / 16) ∷ hex_digit (b % 16) ∷ []

quote_bytes : List ℕ → Text
quote_bytes [] = []
quote_bytes (b ∷ bs) = quote_byte b ++ quote_bytes bs

-- `quote_plus(s)`
unfoldable pub quote_plus : Text → Result Text
unfolding encode quote_bytes
quote_plus s = do bytes ← encode s; ok (quote_bytes bytes)

-- `quote_plus(k) + "=" + quote_plus(v)`
unfoldable pub quote_pair : Text × Text → Result Text
unfolding quote_plus
quote_pair (k, v) = do name ← quote_plus k; value ← quote_plus v; ok (name ++ (b'=' ∷ value))

unfoldable pub urlencode : List (Text × Text) → Result Text
unfolding quote_pair
urlencode [] = ok []
urlencode (kv ∷ []) = quote_pair kv
urlencode (kv ∷ q ∷ query) = do
  first ← quote_pair kv
  rest ← urlencode (q ∷ query)
  ok (first ++ (b'&' ∷ rest))
