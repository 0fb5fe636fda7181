-- ===== src/Evidence/Export/Answers.antt =====
-- The document that export_prometheus.py writes, against the answers to its queries.
use millionws.Base.{
  ℕ, ◌+◌, Bool, true, false, ◌&&◌, All, Bool-cases, if◌then◌else◌, ◌≡◌, refl, sym, ap, subst, ◌∙◌,
  false, none, some, List, [], ◌∷◌, ◌++◌, map, length, ◌⊎◌, inl, inr, append-nil, append_assoc,
  arith, Sum-cases, Option-cases,
}
use millionws.Base.Text.{Text, codes, text_eq, member, IsFresh}
use millionws.Base.Text.Laws.{text_eq_iff, text_eq_refl}
use millionws.Base.Text.Integer.{decimal, int_of_text}
use millionws.Base.Dict.{Dict, insert, keys}
use millionws.Base.Result.{ok, raised, value_error, unicode_encode_error}
use millionws.Evidence.Url.Total.{is_clean, is_clean_query, guarded}
use millionws.Evidence.Export.Request.{sent, url, url_of-url}
use millionws.Evidence.Export.{
  Options, Prometheus, Entry, result, error, queries, url_of, count_points, Progress, store_answer,
  ask_all, export,
}

module _ {V : Type 0} where
  insert-fresh :
      (k : Text) (v : V) (d : Dict V)
      → member k (keys d) ≡ false
      → insert k v d ≡ d ++ ((k, v) ∷ [])
  unfolding insert keys member
  insert-fresh k v [] h = refl
  insert-fresh k v ((j, w) ∷ d) h = ground (arith, insert-fresh k v d)

  insert_twice : (k : Text) (v w : V) (d : Dict V) → insert k w (insert k v d) ≡ insert k w d
  unfolding insert
  insert_twice k v w [] = ground (arith, text_eq_refl k)
  insert_twice k v w ((j, u) ∷ d) = ground (arith, text_eq_iff k j, insert_twice k v w d)

  keys-grown :
      (d : Dict V) (k : Text) (v : V) (ks : List Text)
      → keys (d ++ ((k, v) ∷ [])) ++ ks ≡ keys d ++ (k ∷ ks)
  unfolding keys
  keys-grown [] k v ks = refl
  keys-grown ((j, w) ∷ d) k v ks = ap (λ l. j ∷ l) (keys-grown d k v ks)

member-middle :
    (k n : Text) (xs ys : List Text) → member k (xs ++ (n ∷ ys)) ≡ false → text_eq k n ≡ false
unfolding member
member-middle k n [] ys h = ground arith
member-middle k n (x ∷ xs) ys h = ground (arith, member-middle k n xs ys)

IsFresh-middle : (n : Text) (xs ys : List Text) → IsFresh (xs ++ (n ∷ ys)) → member n xs ≡ false
unfolding member
IsFresh-middle n [] ys h = refl
IsFresh-middle n (x ∷ xs) ys h = ground (
  arith,
  text_eq_iff n x,
  text_eq_iff x n,
  member-middle x n xs ys h.0,
  IsFresh-middle n xs ys h.1,
)

abbrev pub total : List ℕ → ℕ
total [] = 0
total (n ∷ ns) = n + total ns

module _ (p : Prometheus) (options : Options) where
  -- The numbers of points of some series, or what the first exception among them says.
  abbrev pub numbers : List p.Series → Text ⊎ List ℕ
  numbers [] = inr []
  numbers (r ∷ series) = elim (p.points r) [
    | inl e ↦ inl e
    | inr n ↦ elim (numbers series) [ inl e ↦ inl e | inr ns ↦ inr (n ∷ ns) ]
  ]

  count_points-numbers :
      (k : ℕ) (series : List p.Series)
      → count_points p k series
        ≡ (elim (numbers series) [ inl e ↦ inl e | inr ns ↦ inr (k + total ns) ])
  unfolding count_points
  count_points-numbers k [] = ap inr (omega arith)
  count_points-numbers k (r ∷ series) = elim (Sum-cases (p.points r)) [
    | inl (e, failed) ↦ rw (count_points, numbers, failed) refl
    | inr (n, counted) ↦ elim (Sum-cases (numbers series)) [
      | inl (e, failed) ↦
          rw (count_points, numbers, counted)
            (count_points-numbers (k + n) series ∙ rw (failed) refl)
      | inr (ns, all) ↦
          let same : k + n + total ns ≡ k + (n + total ns) = omega arith in
          rw (count_points, numbers, counted)
            (count_points-numbers (k + n) series ∙ rw (all) (ap inr same))
    ]
  ]

  -- The entry and the line of one query, of the answer to it.
  abbrev pub entry_of : Text → Text ⊎ List p.Series → Entry p
  entry_of query (inl e) = error query e
  entry_of query (inr series) = elim (numbers series) [
    | inl e ↦ error query e
    | inr ns ↦ result query series
  ]

  abbrev pub line_of : Text → Text ⊎ List p.Series → Text
  line_of name (inl e) = name ++ (codes " ERROR " ++ e)
  line_of name (inr series) = elim (numbers series) [
    | inl e ↦ name ++ (codes " ERROR " ++ e)
    | inr ns ↦
        name
        ++ (codes ": "
            ++ (decimal (total ns)
                ++ (codes " points, " ++ (decimal (length series) ++ codes " series"))))
  ]

  abbrev pub answer : Text → Text ⊎ List p.Series
  answer query = p.fetch (url options query)

  abbrev pub entries : List (Text × Text) → Dict (Entry p)
  entries = map (λ (name, query). (name, entry_of query (answer query)))

  abbrev pub lines : List (Text × Text) → List Text
  lines = map (λ (name, query). line_of name (answer query))

  store_answer-fresh :
      (name query : Text) (a : Text ⊎ List p.Series) (s : Progress p)
      → member name (keys s.res) ≡ false
      → store_answer p name query a s ≡ record {
        res = s.res ++ ((name, entry_of query a) ∷ []);
        printed = s.printed ++ (line_of name a ∷ []);
      }
  unfolding store_answer
  store_answer-fresh name query (inl e) s h = rw (insert-fresh name (error query e) s.res h) refl
  store_answer-fresh name query (inr series) s h = elim (Sum-cases (numbers series)) [
    | inl (e, failed) ↦
        let stored : Entry p = result query series in
        let uncounted : count_points p 0 series ≡ inl e =
          count_points-numbers 0 series ∙ rw (failed) refl in
        rw
          (
            store_answer,
            entry_of,
            line_of,
            failed,
            uncounted,
            insert_twice name stored (error query e) s.res,
            insert-fresh name (error query e) s.res h,
          )
          refl
    | inr (ns, all) ↦
        let stored : Entry p = result query series in
        let same : 0 + total ns ≡ total ns = omega arith in
        let counted : count_points p 0 series ≡ inr (total ns) =
          count_points-numbers 0 series ∙ rw (all) (ap inr same) in
        rw (store_answer, entry_of, line_of, all, counted, insert-fresh name stored s.res h) refl
  ]

  -- The ends of the range and the step have no surrogate.
  abbrev pub is_sendable : Bool
  is_sendable = is_clean options.start && (is_clean options.end && is_clean options.step)

  url_of-clean :
      (query : Text)
      → is_clean query ≡ true
      → is_sendable ≡ true
      → url_of options query ≡ ok (url options query)
  url_of-clean query clean sendable =
      let same : is_clean_query (sent options query) ≡ true = ground arith in
      url_of-url options query ∙ ap (λ b. guarded b (url options query)) same

  ask_all-eq :
      (qs : List (Text × Text)) (s : Progress p)
      → is_sendable ≡ true
      → All (λ (name, query). is_clean query ≡ true) qs
      → IsFresh (keys s.res ++ keys qs)
      → ask_all p options qs s
        ≡ (record { res = s.res ++ entries qs; printed = s.printed ++ lines qs }, none)
  unfolding ask_all keys
  ask_all-eq [] s sendable clean h = rw (append-nil s.res, append-nil s.printed) refl
  ask_all-eq ((name, query) ∷ qs) s sendable clean h =
      let new = IsFresh-middle name (keys s.res) (keys qs) h in
      let s' : Progress p = record {
        res = s.res ++ ((name, entry_of query (answer query)) ∷ []);
        printed = s.printed ++ (line_of name (answer query) ∷ []);
      } in
      rw (ask_all, url_of-clean query clean.0 sendable)
        (ap (ask_all p options qs) (store_answer-fresh name query (answer query) s new)
          ∙ ask_all-eq qs s' sendable clean.1 (
              subst IsFresh (sym (keys-grown s.res name (entry_of query (answer query)) (keys qs)))
                h)
          ∙ rw (append_assoc s.res, append_assoc s.printed) refl)

  queries-clean : All (λ (name, query). is_clean query ≡ true) queries
  queries-clean = ground arith

  queries-IsFresh : IsFresh (keys queries)
  unfolding keys member text_eq
  queries-IsFresh = ground arith

  abbrev pub no_progress : Progress p
  no_progress = record { res = []; printed = [] }

  first_raises :
      (name query : Text) (qs : List (Text × Text))
      → is_clean query ≡ true
      → is_sendable ≡ false
      → ask_all p options ((name, query) ∷ qs) no_progress
        ≡ (no_progress, some unicode_encode_error)
  unfolding ask_all
  first_raises name query qs clean unsent =
      let some_surrogate : is_clean_query (sent options query) ≡ false = ground arith in
      let stuck : url_of options query ≡ raised unicode_encode_error =
        url_of-url options query ∙ ap (λ b. guarded b (url options query)) some_surrogate in
      rw (ask_all, stuck) refl

  queries_raise :
      is_sendable ≡ false
      → ask_all p options queries no_progress ≡ (no_progress, some unicode_encode_error)
  queries_raise unsent = first_raises _ _ _ refl unsent

  -- Where the ends of the range and the step have no surrogate: each query has an entry under its name,
  -- in the order of the queries, and a line: its result with the number of its points, which is the
  -- sum over the series, and the number of series, or its error where the request failed or the points
  -- cannot be counted. An answer has no influence on the other entries. If `step` is an int, the
  -- document holds it with the entries and the two ends of the range; if not, ValueError is raised
  -- and nothing is written. Where one of them has a surrogate, UnicodeEncodeError is raised, and
  -- nothing is printed or written.
  pub export-answers : export p options ≡ (
      if is_sendable
      then record {
        printed = lines queries;
        written = elim (int_of_text options.step) [
          | none ↦ raised value_error
          | some step ↦ ok (
            options.out,
            record {
              start = options.start;
              end = options.end;
              step_s = step;
              series = entries queries;
            },
          )
        ];
      }
      else record { printed = []; written = raised unicode_encode_error })
  unfolding export keys
  export-answers = elim (Bool-cases is_sendable) [
    | inr unsent ↦ rw (unsent, export, queries_raise unsent) refl
    | inl sendable ↦ elim (Option-cases (int_of_text options.step)) [
      | inl e ↦
          rw
            (
              sendable,
              export,
              ask_all-eq queries no_progress sendable queries-clean queries-IsFresh,
              e,
            )
            refl
      | inr (step, e) ↦
          rw
            (
              sendable,
              export,
              ask_all-eq queries no_progress sendable queries-clean queries-IsFresh,
              e,
            )
            refl
    ]
  ]
