-- ===== src/Evidence/Export/Request.antt =====
-- The URL of a query, as Prometheus reads it.
use millionws.Base.{
  ◌≡◌, refl, sym, ap, ◌∙◌, append_assoc, arith, Bool-cases, inl, inr, List, [], ◌∷◌, ◌++◌,
}
use millionws.Base.Text.{Text, codes}
use millionws.Base.Result.{ok}
use millionws.Evidence.Url.Total.{bytes, query_text, is_clean_query, guarded, urlencode-query_text}
use millionws.Evidence.Url.Unquote.{IsUnicode}
use millionws.Evidence.Url.Decode.{parameters, IsQuery, IsQuery-is_clean, parameters-query_text}
use millionws.Evidence.Export.{Options, url_of}

-- The host, the port and the path, up to the question mark.
abbrev pub before_query : Options → Text
before_query options = codes "http://" ++ (options.host ++ codes ":9090/api/v1/query_range?")

abbrev pub sent : Options → Text → List (Text × Text)
sent options query =
    (codes "query", query)
    ∷ (codes "start", options.start)
    ∷ (codes "end", options.end)
    ∷ (codes "step", options.step)
    ∷ []

-- The URL of a query, where no text of it has a surrogate.
abbrev pub url : Options → Text → Text
url options query = before_query options ++ query_text (sent options query)

parts_of_url :
    (options : Options) (s : Text)
    → codes "http://" ++ (options.host ++ (codes ":9090/api/v1/query_range?" ++ s))
      ≡ before_query options ++ s
parts_of_url options s =
    let path = codes ":9090/api/v1/query_range?" in
    sym (
      append_assoc (codes "http://") (options.host ++ path) s
      ∙ ap (λ t. codes "http://" ++ t) (append_assoc options.host path s))

pub url_of-url :
    (options : Options) (query : Text)
    → url_of options query ≡ guarded (is_clean_query (sent options query)) (url options query)
unfolding url_of
url_of-url options query =
    let parameters = sent options query in
    elim (Bool-cases (is_clean_query parameters)) [
      | inl e ↦
          rw (url_of, urlencode-query_text parameters, e)
            (ap ok (parts_of_url options (query_text parameters)))
      | inr e ↦ rw (url_of, urlencode-query_text parameters, e) refl
    ]

-- Where the query and the options are code points of Unicode and no surrogates, a query's URL goes on
-- behind the path with a text from which the server reads four parameters back: the query, both ends
-- of the range and the step, each as the bytes of its UTF-8.
pub parameters-url_of :
    (options : Options) (query : Text)
    → IsUnicode query
    → IsUnicode options.start
    → IsUnicode options.end
    → IsUnicode options.step
    → (s : Text) × (url_of options query ≡ ok (before_query options ++ s))
      × (parameters s
          ≡ (codes "query", bytes query)
            ∷ (codes "start", bytes options.start)
            ∷ (codes "end", bytes options.end)
            ∷ (codes "step", bytes options.step)
            ∷ [])
unfolding bytes
parameters-url_of options query hq hs he ht =
    let names : IsQuery (sent options query) =
      ((omega arith, hq), ((omega arith, hs), ((omega arith, he), ((omega arith, ht), tt)))) in
    (
      query_text (sent options query),
      url_of-url options query ∙ rw (IsQuery-is_clean (sent options query) names) refl,
      parameters-query_text (codes "query") query
          ((codes "start", options.start)
            ∷ (codes "end", options.end)
            ∷ (codes "step", options.step)
            ∷ [])
          names,
    )
