-- ===== src/Evidence/Url/Total.antt =====
-- `urlencode` of texts without surrogates, which raises nothing.
use millionws.Base.{
  ◌≡◌, refl, ◌∙◌, Bool-cases, Bool, true, false, not, ◌&&◌, List, [], ◌∷◌, ◌++◌, ℕ, inl, inr,
}
use millionws.Base.Text.{Text}
use millionws.Base.Result.{Result, ok, raised, unicode_encode_error, ◌>>=◌}
use millionws.Evidence.Url.{
  is_surrogate, scalar_bytes, encode, quote_bytes, quote_plus, quote_pair, urlencode,
}

abbrev pub is_clean : Text → Bool
is_clean [] = true
is_clean (c ∷ s) = not (is_surrogate c) && is_clean s

-- The bytes of a text's UTF-8.
unfoldable pub bytes : Text → List ℕ
bytes [] = []
bytes (c ∷ s) = scalar_bytes c ++ bytes s

unfoldable pub quoted : Text → Text
unfolding quote_bytes
quoted s = quote_bytes (bytes s)

abbrev pub pair : Text × Text → Text
pair (k, v) = quoted k ++ (b'=' ∷ quoted v)

unfoldable pub query_text : List (Text × Text) → Text
query_text [] = []
query_text (kv ∷ []) = pair kv
query_text (kv ∷ q ∷ query) = pair kv ++ (b'&' ∷ query_text (q ∷ query))

-- What a call gives of a clean text.
abbrev pub guarded : Bool → {A : Type 0} → A → Result A
guarded true a = ok a
guarded false a = raised unicode_encode_error

encode-bytes : (s : Text) → encode s ≡ guarded (is_clean s) (bytes s)
unfolding encode bytes
encode-bytes [] = refl
encode-bytes (c ∷ s) = elim (Bool-cases (is_surrogate c)) [
  | inl e ↦ rw e refl
  | inr e ↦ elim (Bool-cases (is_clean s)) [
    | inl d ↦ rw (e, encode-bytes s, d) refl
    | inr d ↦ rw (e, encode-bytes s, d) refl
  ]
]

quote_plus-quoted : (s : Text) → quote_plus s ≡ guarded (is_clean s) (quoted s)
unfolding quote_plus quoted
quote_plus-quoted s = elim (Bool-cases (is_clean s)) [
  | inl d ↦ rw (quote_plus, encode-bytes s, d) refl
  | inr d ↦ rw (quote_plus, encode-bytes s, d) refl
]

abbrev pub is_clean_pair : Text × Text → Bool
is_clean_pair (k, v) = is_clean k && is_clean v

quote_pair-pair : (kv : Text × Text) → quote_pair kv ≡ guarded (is_clean_pair kv) (pair kv)
unfolding quote_pair
quote_pair-pair (k, v) = elim (Bool-cases (is_clean k)) [
  | inl a ↦ elim (Bool-cases (is_clean v)) [
    | inl b ↦ rw (quote_pair, quote_plus-quoted k, quote_plus-quoted v, a, b) refl
    | inr b ↦ rw (quote_pair, quote_plus-quoted k, quote_plus-quoted v, a, b) refl
  ]
  | inr a ↦ rw (quote_pair, quote_plus-quoted k, a) refl
]

abbrev pub is_clean_query : List (Text × Text) → Bool
is_clean_query [] = true
is_clean_query (kv ∷ query) = is_clean_pair kv && is_clean_query query

guarded-next :
    (a b : Bool) (s t : Text)
    → (guarded a s >>= λ first. guarded b t >>= λ rest. ok (first ++ (b'&' ∷ rest)))
      ≡ guarded (a && b) (s ++ (b'&' ∷ t))
guarded-next true true s t = refl
guarded-next true false s t = refl
guarded-next false b s t = refl

guarded-last : (a : Bool) (s : Text) → guarded a s ≡ guarded (a && true) s
guarded-last true s = refl
guarded-last false s = refl

-- UnicodeEncodeError is raised just where a name or a value has a surrogate.
pub urlencode-query_text :
    (query : List (Text × Text))
    → urlencode query ≡ guarded (is_clean_query query) (query_text query)
unfolding urlencode query_text
urlencode-query_text [] = refl
urlencode-query_text (kv ∷ []) = quote_pair-pair kv ∙ guarded-last (is_clean_pair kv) (pair kv)
urlencode-query_text (kv ∷ q ∷ query) =
    (λ i. quote_pair-pair kv i >>= λ first.
    urlencode-query_text (q ∷ query) i >>= λ rest. ok (first ++ (b'&' ∷ rest)))
    ∙ guarded-next (is_clean_pair kv) (is_clean_query (q ∷ query)) (pair kv)
        (query_text (q ∷ query))
