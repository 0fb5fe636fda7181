-- ===== src/Record/Summary/Errors.antt =====
-- The entry "dial_errors_by_reason" of record.py's summary.
use millionws.Base.{
  ◌≡◌, ◌≢◌, sym, ap, ◌∙◌, ◌⊎◌, inl, inr, true, some, List, [], ◌∷◌, Any, arith, Bool-cases,
  some-injective,
}
use millionws.Base.Int.{ℤ}
use millionws.Base.Text.{Text, codes, text_eq}
use millionws.Base.Text.Laws.{text_eq_iff}
use millionws.Base.Dict.{Dict, lookup, insert, lookup-insert}
use millionws.Base.Result.{Result-cases, ok, ok_injective, raised-ne-ok}
use millionws.Record.Number.{Float, truthy}
use millionws.Record.Sampler.{Sample}
use millionws.Record.Loop.{Args}
use millionws.Record.Summary.{reason_label, count_errors, Summary, write_summary}

lookup_nil : (r : Text) {n : ℤ} → lookup r [] ≢ some n
unfolding lookup
lookup_nil r h = cc

stored_or_before :
    (r s : Text) (n m : ℤ) (err : Dict ℤ)
    → lookup r (insert s n err) ≡ some m
    → (lookup r err ≡ some m) ⊎ ((s ≡ r) × (n ≡ m))
stored_or_before r s n m err h = elim (Bool-cases (text_eq r s)) [
  | inl e ↦
      inr (sym ((text_eq_iff r s).0 e), some-injective _ _ (rw (lookup-insert r s n err, e) at h))
  | inr e ↦ inl (rw (lookup-insert r s n err, e) at h)
]

module _ (f : Float) where
  -- The series counts the errors of the reason, and there were some.
  abbrev pub Counts : Text → ℤ → Dict Text × f.Carrier → Type 0
  Counts reason n (labels, v) =
      (reason_label (lookup (codes "reason") labels) ≡ reason)
      × (truthy f v ≡ true)
      × (f.truncate v ≡ ok n)

  count_errors-from :
      (reason : Text) (n : ℤ) (err : Dict ℤ) (items : List (Dict Text × f.Carrier)) {out : Dict ℤ}
      → count_errors f err items ≡ ok out
      → lookup reason out ≡ some n
      → (lookup reason err ≡ some n) ⊎ Any (Counts reason n) items
  unfolding count_errors
  count_errors-from reason n err [] {out} h e =
      inl (ap (lookup reason) (ok_injective err out h) ∙ e)
  count_errors-from reason n err ((labels, v) ∷ items) {out} h e = elim (Bool-cases (truthy f v)) [
    | inl some_errors ↦ elim (Result-cases (f.truncate v)) [
      | inl (k, whole) ↦
          let label = reason_label (lookup (codes "reason") labels) in
          elim (count_errors-from reason n (insert label k err) items
            (rw (count_errors, some_errors, whole) at h) e) [
              | inl before ↦ elim (stored_or_before reason label k n err before) [
                | inl old ↦ inl old
                | inr (same, value) ↦ inr (inl (same, some_errors, whole ∙ ap ok value))
              ]
              | inr behind ↦ inr (inr behind)
            ]
      | inr (x, whole) ↦ absurd (raised-ne-ok x out (rw (count_errors, some_errors, whole) at h))
    ]
    | inr no_errors ↦
        elim (count_errors-from reason n err items (rw (count_errors, no_errors) at h) e) [
          | inl before ↦ inl before
          | inr behind ↦ inr (inr behind)
        ]
  ]

  pub write_summary-count_errors :
      (args : Args) (idle : Sample f) (rows : List (Sample f)) (reason : Text)
      (errors : List (Dict Text × f.Carrier)) {s : Summary f}
      → write_summary f args idle rows reason errors ≡ ok s
      → count_errors f [] errors ≡ ok s.dial_errors_by_reason
  unfolding write_summary
  write_summary-count_errors args idle rows reason errors h = ground arith

  -- A number of errors that the summary gives for a reason is that of a series that Prometheus
  -- answered for the reason, not zero and cut to an int.
  pub write_summary-Counts :
      (args : Args) (idle : Sample f) (rows : List (Sample f)) (ended : Text)
      (errors : List (Dict Text × f.Carrier)) (reason : Text) (n : ℤ) {s : Summary f}
      → write_summary f args idle rows ended errors ≡ ok s
      → lookup reason s.dial_errors_by_reason ≡ some n
      → Any (Counts reason n) errors
  write_summary-Counts args idle rows ended errors reason n h e =
      elim (count_errors-from reason n [] errors
        (write_summary-count_errors args idle rows ended errors h) e) [
          | inl before ↦ absurd (lookup_nil reason before)
          | inr found ↦ found
        ]
