-- ===== src/Evidence/Url/Decode.antt =====
-- The query string of a URL, as the server that gets it reads it: the parameters stand between "&",
-- and the name and the value of each are parted by "=".
use millionws.Base.{ℕ, ◌≡◌, refl, ap, ◌∙◌, List, [], ◌∷◌, ◌++◌, map, All, true, arith}
use millionws.Base.Text.Split.{Lacks, Lacks-append, split_at-part, split_at-last}
use millionws.Base.Text.{Text, partition, split_at}
use millionws.Evidence.Url.Total.{is_clean_query, bytes, quoted, pair, query_text}
use millionws.Evidence.Url.Unquote.{
  unquote, IsSafe, IsUnicode, IsUnicode-is_clean, unquote-quoted, quoted-IsSafe,
}

abbrev parameter : Text → List ℕ × List ℕ
parameter part = let (k, v) = partition b'=' part in (unquote k, unquote v)

-- The names and the values, as bytes, of a query that is not empty.
unfoldable pub parameters : Text → List (List ℕ × List ℕ)
unfolding split_at unquote
parameters query = map parameter (split_at b'&' query)

partition-safe : (s t : Text) → IsSafe s → partition b'=' (s ++ (b'=' ∷ t)) ≡ (s, t)
unfolding partition
partition-safe [] t h = refl
partition-safe (c ∷ s) t h = ground (arith, partition-safe s t h.1)

-- Without a separator of the parameters.
abbrev IsPart : Text → Type 0
IsPart = Lacks b'&'

IsSafe-IsPart : (s : Text) → IsSafe s → IsPart s
IsSafe-IsPart [] h = tt
IsSafe-IsPart (c ∷ s) h = (h.0.0, IsSafe-IsPart s h.1)

abbrev pub IsQuery : List (Text × Text) → Type 0
IsQuery = All (λ (k, v). IsUnicode k × IsUnicode v)

pair-IsPart : (k v : Text) → IsUnicode k → IsUnicode v → IsPart (pair (k, v))
pair-IsPart k v hk hv =
    Lacks-append b'&' (quoted k) (b'=' ∷ quoted v) (IsSafe-IsPart (quoted k) (quoted-IsSafe k hk))
      (omega arith, IsSafe-IsPart (quoted v) (quoted-IsSafe v hv))

parameter-pair :
    (k v : Text) → IsUnicode k → IsUnicode v → parameter (pair (k, v)) ≡ (bytes k, bytes v)
parameter-pair k v hk hv =
    rw
      (
        partition-safe (quoted k) (quoted v) (quoted-IsSafe k hk),
        unquote-quoted k hk,
        unquote-quoted v hv,
      )
      refl

query_text-more :
    (k v : Text) (q : Text × Text) (query : List (Text × Text))
    → query_text ((k, v) ∷ q ∷ query) ≡ pair (k, v) ++ (b'&' ∷ query_text (q ∷ query))
unfolding query_text
query_text-more k v q query = refl

query_text-one : (k v : Text) → query_text ((k, v) ∷ []) ≡ pair (k, v)
unfolding query_text
query_text-one k v = refl

split_at-query_text :
    (k v : Text) (query : List (Text × Text))
    → IsQuery ((k, v) ∷ query)
    → split_at b'&' (query_text ((k, v) ∷ query)) ≡ map pair ((k, v) ∷ query)
split_at-query_text k v [] h =
    ap (split_at b'&') (query_text-one k v)
    ∙ split_at-last b'&' (pair (k, v)) (pair-IsPart k v h.0.0 h.0.1)
split_at-query_text k v ((l, w) ∷ query) h =
    ap (split_at b'&') (query_text-more k v (l, w) query)
    ∙ split_at-part b'&' (pair (k, v)) (query_text ((l, w) ∷ query)) (pair-IsPart k v h.0.0 h.0.1)
    ∙ ap (λ ps. pair (k, v) ∷ ps) (split_at-query_text l w query h.1)

map-parameter :
    (query : List (Text × Text))
    → IsQuery query
    → map parameter (map pair query) ≡ map (λ (k, v). (bytes k, bytes v)) query
map-parameter [] h = refl
map-parameter ((k, v) ∷ query) h =
    ap (λ p. p ∷ map parameter (map pair query)) (parameter-pair k v h.0.0 h.0.1)
    ∙ ap (λ ps. (bytes k, bytes v) ∷ ps) (map-parameter query h.1)

pub IsQuery-is_clean : (query : List (Text × Text)) → IsQuery query → is_clean_query query ≡ true
IsQuery-is_clean [] h = refl
IsQuery-is_clean ((k, v) ∷ query) h =
    rw (IsUnicode-is_clean k h.0.0, IsUnicode-is_clean v h.0.1, IsQuery-is_clean query h.1) refl

-- Of a query that is not empty and whose names and values are code points of Unicode and no surrogates,
-- the server reads back the parameters that `urlencode` was given, in their order, each name and value as
-- the bytes of its UTF-8.
pub parameters-query_text :
    (k v : Text) (query : List (Text × Text))
    → IsQuery ((k, v) ∷ query)
    → parameters (query_text ((k, v) ∷ query)) ≡ map (λ (k, v). (bytes k, bytes v)) ((k, v) ∷ query)
unfolding parameters
parameters-query_text k v query h =
    ap (map parameter) (split_at-query_text k v query h) ∙ map-parameter ((k, v) ∷ query) h
