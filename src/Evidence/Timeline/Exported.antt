-- ===== src/Evidence/Timeline/Exported.antt =====
-- What plot_run.py reads of the document that export_prometheus.py wrote.
use millionws.Base.{
  Bool-cases, Sum-cases, Option-cases, some-injective, ◌≡◌, refl, sym, ap, ◌∙◌, ◌⊎◌, inl, inr,
  Option, none, some, List, [], ◌∷◌, if◌then◌else◌,
}
use millionws.Base.Text.{Text, codes, text_eq}
use millionws.Base.Dict.{Dict, lookup}
use millionws.Base.Result.{
  Result, Exception, Result-cases, ok, raised, key_error, index_error, value_error, or_raise,
}
use millionws.Record.Number.{Float, Num, to_float}
use millionws.Evidence.Export.{Options, Prometheus, Entry, result, queries}
use millionws.Evidence.Export.Answers.{numbers, entry_of, answer, entries}
use millionws.Evidence.Timeline.{collect, dt, value_of, get}

-- A value before those of a list.
abbrev pub before : {B : Type 0} → B → Result (List B) → Result (List B)
before y (raised e) = raised e
before y (ok ys) = ok (y ∷ ys)

collect_raised :
    {A B : Type 0} (call : A → Result B) (x : A) (xs : List A) {e : Exception}
    → call x ≡ raised e
    → collect call (x ∷ xs) ≡ raised e
unfolding collect
collect_raised call x xs h = rw (collect, h) refl

collect_ok :
    {A B : Type 0} (call : A → Result B) (x : A) (xs : List A) {y : B}
    → call x ≡ ok y
    → collect call (x ∷ xs) ≡ before y (collect call xs)
unfolding collect
collect_ok call x xs {y} h = elim (Result-cases (collect call xs)) [
  | inl (ys, e) ↦ rw (collect, h, e) refl
  | inr (r, e) ↦ rw (collect, h, e) refl
]

module _ (p : Prometheus) (options : Options) where
  lookup-entries :
      (name : Text) (qs : List (Text × Text)) {query : Text}
      → lookup name qs ≡ some query
      → lookup name (entries p options qs)
        ≡ some (entry_of p options query (answer p options query))
  unfolding lookup
  lookup-entries name [] h = cc
  lookup-entries name ((n, q) ∷ qs) {query} h = elim (Bool-cases (text_eq name n)) [
    | inl e ↦ rw e (
        ap (λ l. some (entry_of p options l (answer p options l))) (some-injective _ _ (rw e at h)))
    | inr e ↦ rw e (lookup-entries name qs (rw e at h))
  ]

  module _ (f : Float) {M : Type 0} (from_timestamp : f.Carrier → Result M)
      (values : p.Series → Option (List (Num f × Text))) where
    -- The times of some points, each a datetime of the float of its number.
    abbrev pub moments : List (Num f × Text) → Result (List M)
    moments [] = ok []
    moments ((t, v) ∷ r) = elim (from_timestamp (to_float f t)) [
      | raised e ↦ raised e
      | ok m ↦ before m (moments r)
    ]

    -- The numbers that their texts spell, of which NaN is spelled "NaN".
    abbrev pub spelled : List (Num f × Text) → Result (List f.Carrier)
    spelled [] = ok []
    spelled ((t, v) ∷ r) = elim (f.parse (if text_eq v (codes "NaN") then codes "nan" else v)) [
      | none ↦ raised value_error
      | some x ↦ before x (spelled r)
    ]

    -- The times and the numbers of the first series.
    abbrev pub read_first : List p.Series → Result (List M × List f.Carrier)
    read_first [] = raised index_error
    read_first (one ∷ series) = elim (values one) [
      | none ↦ raised key_error
      | some r ↦ elim (moments r) [
        | raised e ↦ raised e
        | ok ms ↦ elim (spelled r) [ raised e ↦ raised e | ok xs ↦ ok (ms, xs) ]
      ]
    ]

    abbrev pub read : Text ⊎ List p.Series → Result (List M × List f.Carrier)
    read (inl e) = raised key_error
    read (inr series) = elim (numbers p options series) [
      | inl e ↦ raised key_error
      | inr ns ↦ read_first series
    ]

    collect-moments :
        (r : List (Num f × Text)) → collect (dt f from_timestamp p values) r ≡ moments r
    unfolding collect
    collect-moments [] = refl
    collect-moments ((t, v) ∷ r) = elim (Result-cases (from_timestamp (to_float f t))) [
      | inl (m, e) ↦
          collect_ok (dt f from_timestamp p values) (t, v) r e
          ∙ ap (before m) (collect-moments r)
          ∙ sym (rw (moments, e) refl)
      | inr (x, e) ↦
          collect_raised (dt f from_timestamp p values) (t, v) r e ∙ sym (rw (moments, e) refl)
    ]

    value_of-parse :
        (t : Num f) (v : Text)
        → value_of f from_timestamp p values (t, v)
          ≡ or_raise (f.parse (if text_eq v (codes "NaN") then codes "nan" else v)) value_error
    value_of-parse t v = elim (Bool-cases (text_eq v (codes "NaN"))) [
      | inl e ↦ rw (value_of, e) refl
      | inr e ↦ rw (value_of, e) refl
    ]

    collect-spelled :
        (r : List (Num f × Text)) → collect (value_of f from_timestamp p values) r ≡ spelled r
    unfolding collect
    collect-spelled [] = refl
    collect-spelled ((t, v) ∷ r) =
        let text = if text_eq v (codes "NaN") then codes "nan" else v in
        elim (Option-cases (f.parse text)) [
          | inl e ↦
              collect_raised (value_of f from_timestamp p values) (t, v) r
                (value_of-parse t v ∙ ap (λ o. or_raise o value_error) e)
              ∙ sym (rw (spelled, e) refl)
          | inr (x, e) ↦
              collect_ok (value_of f from_timestamp p values) (t, v) r
                (value_of-parse t v ∙ ap (λ o. or_raise o value_error) e)
              ∙ ap (before x) (collect-spelled r)
              ∙ sym (rw (spelled, e) refl)
        ]

    get-first :
        (d : Dict (Entry p)) (name query : Text) (series : List p.Series)
        → lookup name d ≡ some (result query series)
        → get f from_timestamp p values d name ≡ read_first series
    unfolding get
    get-first d name query [] h = rw h refl
    get-first d name query (one ∷ series) h = elim (Option-cases (values one)) [
      | inl e ↦ rw (get, h, read_first, e) refl
      | inr (r, e) ↦ elim (Result-cases (moments r)) [
        | inr (x, m) ↦ rw (get, h, read_first, e, collect-moments r, m) refl
        | inl (ms, m) ↦ elim (Result-cases (spelled r)) [
          | inr (x, n) ↦ rw (get, h, read_first, e, collect-moments r, m, collect-spelled r, n) refl
          | inl (xs, n) ↦
              rw (get, h, read_first, e, collect-moments r, m, collect-spelled r, n) refl
        ]
      ]
    ]

    get-entry :
        (d : Dict (Entry p)) (name query : Text) (a : Text ⊎ List p.Series)
        → lookup name d ≡ some (entry_of p options query a)
        → get f from_timestamp p values d name ≡ read a
    unfolding get
    get-entry d name query (inl e) h = rw h refl
    get-entry d name query (inr series) h = elim (Sum-cases (numbers p options series)) [
      | inl (e, failed) ↦ rw (get, read, h, entry_of, failed) refl
      | inr (ns, counted) ↦
          rw (read, counted) (get-first d name query series (h ∙ rw (entry_of, counted) refl))
    ]

    -- Of the document that the export writes, `get` reads for the name of a query the first series
    -- that Prometheus answered to that query: the datetimes of its times, in order, and the
    -- numbers that its values spell, "NaN" being NaN; the first exception of a datetime, or
    -- else ValueError for what spells no number. Where the request failed or the points could not
    -- be counted, it raises KeyError, and where there is no series, IndexError.
    pub get-entries :
        (name : Text) {query : Text}
        → lookup name queries ≡ some query
        → get f from_timestamp p values (entries p options queries) name
          ≡ read (answer p options query)
    get-entries name {query} h =
        get-entry (entries p options queries) name query (answer p options query)
          (lookup-entries name queries h)
