-- ===== src/Record/Parse/Scrape.antt =====
-- What `scrape_server` and `prom` of record.py promise to their callers, whatever is answered.
use millionws.Base.{
  ◌≡◌, ◌≢◌, refl, subst, some-injective, some-ne-none, ◌⊎◌, Any, ap, ◌∙◌, true, not, Option, none,
  some, List, [], ◌∷◌, All, arith, Bool-cases, inl, inr, if◌then◌else◌, Option-cases,
}
use millionws.Base.Text.{Text, text_eq, member, partition, splitlines, codes}
use millionws.Base.Text.Laws.{text_eq_iff}
use millionws.Base.Dict.{Dict, lookup, insert, keys, lookup-insert}
use millionws.Base.Result.{Result, ok}
use millionws.Record.Number.{Float}
use millionws.Record.Parse.{server_fields, no_fields, scrape_lines, scrape_server, Series, prom}

module _ {V : Type 0} where
  -- Storing under a key that is there keeps the keys and their order.
  keys-insert :
      (k : Text) (v : V) (d : Dict V) → member k (keys d) ≡ true → keys (insert k v d) ≡ keys d
  unfolding keys insert member
  keys-insert k v [] h = cc
  keys-insert k v ((j, w) ∷ d) h = ground (arith, keys-insert k v d)

  lookup_in :
      (P : V → Type 0) (k : Text) (d : Dict V) {v : V}
      → All (λ (_, w). P w) d
      → lookup k d ≡ some v
      → P v
  unfolding lookup
  lookup_in P k [] h e = cc
  lookup_in P k ((j, w) ∷ d) {v} h e = elim (Bool-cases (text_eq k j)) [
    | inl same ↦ subst P (some-injective w v (rw same at e)) h.0
    | inr other ↦ lookup_in P k d h.1 (rw other at e)
  ]

-- The fields of the server, in the order of `SERVER_FIELDS`.
abbrev pub field_names : List Text
field_names =
    codes "server_conns"
    ∷ codes "goroutines"
    ∷ codes "open_fds"
    ∷ codes "process_rss"
    ∷ codes "go_heap_inuse"
    ∷ codes "go_stack_inuse"
    ∷ codes "rejected"
    ∷ []

server_fields_named : All (λ (_, field). member field field_names ≡ true) server_fields
unfolding member text_eq
server_fields_named = (refl, (refl, (refl, (refl, (refl, (refl, (refl, tt)))))))

module _ (f : Float) where
  -- The line gives the field the value: it names the field's metric and its text is the number.
  abbrev pub Gives : Text → f.Carrier → Text → Type 0
  Gives field x line =
      let (name, value) = partition b' ' line in
      (lookup name server_fields ≡ some field) × (f.parse value ≡ some x)

  abbrev name_of : Text → Text
  name_of line = (partition b' ' line).0

  abbrev value_of : Text → Text
  value_of line = (partition b' ' line).1

  -- The three ways of a round of the loop.
  scrape_lines-other :
      (out : Dict (Option f.Carrier)) (line : Text) (lines : List Text)
      → lookup (name_of line) server_fields ≡ none
      → scrape_lines f out (line ∷ lines) ≡ scrape_lines f out lines
  unfolding scrape_lines
  scrape_lines-other out line lines e = rw (e, scrape_lines) refl

  scrape_lines-broken :
      (out : Dict (Option f.Carrier)) (line : Text) (lines : List Text) {field : Text}
      → lookup (name_of line) server_fields ≡ some field
      → f.parse (value_of line) ≡ none
      → scrape_lines f out (line ∷ lines) ≡ out
  unfolding scrape_lines
  scrape_lines-broken out line lines e p = rw (e, p, scrape_lines) refl

  scrape_lines-stored :
      (out : Dict (Option f.Carrier)) (line : Text) (lines : List Text) {field : Text}
      {x : f.Carrier}
      → lookup (name_of line) server_fields ≡ some field
      → f.parse (value_of line) ≡ some x
      → scrape_lines f out (line ∷ lines) ≡ scrape_lines f (insert field (some x) out) lines
  unfolding scrape_lines
  scrape_lines-stored out line lines e p = rw (e, p, scrape_lines) refl

  scrape_lines-keys :
      (out : Dict (Option f.Carrier)) (lines : List Text)
      → keys out ≡ field_names
      → keys (scrape_lines f out lines) ≡ field_names
  scrape_lines-keys out [] h = unfold scrape_lines in h
  scrape_lines-keys out (line ∷ lines) h =
      elim (Option-cases (lookup (name_of line) server_fields)) [
        | inl e ↦ rw (scrape_lines-other out line lines e) (scrape_lines-keys out lines h)
        | inr (field, e) ↦ elim (Option-cases (f.parse (value_of line))) [
          | inl p ↦ rw (scrape_lines-broken out line lines e p) h
          | inr (x, p) ↦
              let named : member field (keys out) ≡ true = rw h (
                lookup_in (λ w. member w field_names ≡ true) (name_of line) server_fields
                  server_fields_named e) in
              rw (scrape_lines-stored out line lines e p) (
                scrape_lines-keys (insert field (some x) out) lines
                  (keys-insert field (some x) out named ∙ h))
        ]
      ]

  later :
      {P : Type 0} {field : Text} {x : f.Carrier} (line : Text) (lines : List Text)
      → P ⊎ Any (Gives field x) lines
      → P ⊎ Any (Gives field x) (line ∷ lines)
  later line lines (inl p) = inl p
  later line lines (inr n) = inr (inr n)

  stored :
      {field : Text} {x : f.Carrier} (k : Text) (y : f.Carrier) (out : Dict (Option f.Carrier))
      (line : Text) (lines : List Text)
      → lookup (name_of line) server_fields ≡ some k
      → f.parse (value_of line) ≡ some y
      → (lookup field (insert k (some y) out) ≡ some (some x)) ⊎ Any (Gives field x) lines
      → (lookup field out ≡ some (some x)) ⊎ Any (Gives field x) (line ∷ lines)
  stored k y out line lines e p (inr n) = inr (inr n)
  stored {field} {x} k y out line lines e p (inl h) =
      ground (arith, text_eq_iff field k, lookup-insert field k (some y) out)

  scrape_lines-Gives :
      (field : Text) (x : f.Carrier) (out : Dict (Option f.Carrier)) (lines : List Text)
      → lookup field (scrape_lines f out lines) ≡ some (some x)
      → (lookup field out ≡ some (some x)) ⊎ Any (Gives field x) lines
  scrape_lines-Gives field x out [] h = unfold scrape_lines in inl h
  scrape_lines-Gives field x out (line ∷ lines) h =
      elim (Option-cases (lookup (name_of line) server_fields)) [
        | inl e ↦
            later line lines
              (scrape_lines-Gives field x out lines (rw (scrape_lines-other out line lines e) at h))
        | inr (k, e) ↦ elim (Option-cases (f.parse (value_of line))) [
          | inl p ↦ inl (rw (scrape_lines-broken out line lines e p) at h)
          | inr (y, p) ↦ stored k y out line lines e p (
              scrape_lines-Gives field x (insert k (some y) out) lines
                (rw (scrape_lines-stored out line lines e p) at h))
        ]
      ]

  no_fields-keys : keys (no_fields f) ≡ field_names
  unfolding keys
  no_fields-keys = refl

  no_fields-none : (field : Text) (x : f.Carrier) → lookup field (no_fields f) ≢ some (some x)
  no_fields-none field x h = some-ne-none x (
      lookup_in (λ v. v ≡ none) field (no_fields f)
        (refl, (refl, (refl, (refl, (refl, (refl, (refl, tt))))))) h)

  -- Whatever the server answers, and wherever the page breaks off, the result of `scrape_server` has
  -- the seven fields of `SERVER_FIELDS`, each once and in order.
  pub scrape_server-keys : (page : Option Text) → keys (scrape_server f page) ≡ field_names
  unfolding scrape_server
  scrape_server-keys none = no_fields-keys
  scrape_server-keys (some text) = scrape_lines-keys (no_fields f) (splitlines text) no_fields-keys

  -- A number in a field of the result of `scrape_server` is the value of a line of the page, and the
  -- line names the metric of that field.
  pub scrape_server-Gives :
      (text field : Text) (x : f.Carrier)
      → lookup field (scrape_server f (some text)) ≡ some (some x)
      → Any (Gives field x) (splitlines text)
  unfolding scrape_server
  scrape_server-Gives text field x h =
      elim (scrape_lines-Gives field x (no_fields f) (splitlines text) h) [
        | inl before ↦ absurd (no_fields-none field x before)
        | inr found ↦ found
      ]

  kept_number :
      (v x : f.Carrier)
      → ◌≡◌ {A = Result (Option f.Carrier)}
          (ok (if not (f.eq v v) then none else some v))
          (ok (some x))
      → (f.eq x x ≡ true) × (v ≡ x)
  kept_number v x h = ground arith

  -- A number that `prom` returns is not NaN, and is the value of the answer's first series.
  pub prom-number :
      (answer : Option (List Series)) (x : f.Carrier)
      → prom f answer ≡ ok (some x)
      → (f.eq x x ≡ true)
        × ((s : Series) × (rest : List Series) × (answer ≡ some (s ∷ rest))
            × (f.parse s.value ≡ some x))
  unfolding prom
  prom-number none x h = cc
  prom-number (some []) x h = cc
  prom-number (some (s ∷ rest)) x h = elim (Option-cases (f.parse s.value)) [
    | inl e ↦ absurd (ground arith)
    | inr (v, e) ↦
        let (number, same) = kept_number v x (rw e at h) in
        (number, (s, rest, refl, e ∙ ap some same))
  ]
