-- ===== src/Record/Page/Errors.antt =====
-- The dial errors that record.py lists on its page.
use millionws.Base.{
  ◌≡◌, refl, sym, ap, subst, ◌∙◌, false, ◌||◌, some, List, [], ◌∷◌, arith, Bool-cases, inl, inr,
  if◌then◌else◌,
}
use millionws.Base.Int.{ℤ}
use millionws.Base.Text.{Text, codes, text_eq, member, IsFresh}
use millionws.Base.Text.Laws.{text_eq_iff}
use millionws.Base.Sort.{text_lt, insert_sorted, sorted}
use millionws.Base.Sort.Increasing.{IsIncreasing, member-sorted, sorted-IsIncreasing}
use millionws.Base.Dict.{Dict, lookup, insert, keys}
use millionws.Base.Result.{ok, ok_injective, raised-ne-ok, Result-cases}
use millionws.Record.Number.{Float, truthy}
use millionws.Record.Sampler.{Sample}
use millionws.Record.Loop.{Args}
use millionws.Record.Summary.{reason_label, count_errors, Summary, write_summary}
use millionws.Record.Summary.Errors.{write_summary-count_errors}
use millionws.Record.Page.{item_lt, error_items}

keys-insert_sorted :
    (k : Text) (v : ℤ) (d : Dict ℤ)
    → member k (keys d) ≡ false
    → keys (insert_sorted item_lt (k, v) d) ≡ insert_sorted text_lt k (keys d)
unfolding insert_sorted keys member
keys-insert_sorted k v [] h = refl
keys-insert_sorted k v ((l, w) ∷ d) h =
    ground (arith, text_eq_iff k l, text_eq_iff l k, keys-insert_sorted k v d)

lookup-insert_sorted :
    (r k : Text) (v : ℤ) (d : Dict ℤ)
    → member k (keys d) ≡ false
    → lookup r (insert_sorted item_lt (k, v) d) ≡ (if text_eq r k then some v else lookup r d)
unfolding insert_sorted keys member lookup
lookup-insert_sorted r k v [] h = refl
lookup-insert_sorted r k v ((l, w) ∷ d) h =
    ground (arith, text_eq_iff r k, text_eq_iff r l, text_eq_iff k l, lookup-insert_sorted r k v d)

sorted_items :
    (d : Dict ℤ)
    → IsFresh (keys d)
    → (keys (sorted item_lt d) ≡ sorted text_lt (keys d))
      × ((r : Text) → lookup r (sorted item_lt d) ≡ lookup r d)
unfolding sorted keys lookup
sorted_items [] h = (refl, λ r. refl)
sorted_items ((k, v) ∷ d) h =
    let (same_keys, same_values) = sorted_items d h.1 in
    let new = ap (member k) same_keys ∙ member-sorted k (keys d) ∙ h.0 in
    (
      keys-insert_sorted k v (sorted item_lt d) new ∙ ap (insert_sorted text_lt k) same_keys,
      λ r.
          lookup-insert_sorted r k v (sorted item_lt d) new
          ∙ ap (λ o. if text_eq r k then some v else o) (same_values r),
    )

member-insert :
    (j k : Text) (v : ℤ) (d : Dict ℤ)
    → member j (keys (insert k v d)) ≡ (text_eq j k || member j (keys d))
unfolding insert keys member
member-insert j k v [] = refl
member-insert j k v ((l, w) ∷ d) =
    ground (arith, text_eq_iff k l, text_eq_iff j k, text_eq_iff j l, member-insert j k v d)

insert-IsFresh : (k : Text) (v : ℤ) (d : Dict ℤ) → IsFresh (keys d) → IsFresh (keys (insert k v d))
unfolding insert keys member
insert-IsFresh k v [] h = (refl, tt)
insert-IsFresh k v ((l, w) ∷ d) h = elim (Bool-cases (text_eq k l)) [
  | inl e ↦ rw e h
  | inr e ↦ rw e (
    ground (arith, member-insert l k v d, text_eq_iff k l, text_eq_iff l k),
    insert-IsFresh k v d h.1,
  )
]

module _ (f : Float) where
  count_errors-IsFresh :
      (err : Dict ℤ) (items : List (Dict Text × f.Carrier)) {out : Dict ℤ}
      → IsFresh (keys err)
      → count_errors f err items ≡ ok out
      → IsFresh (keys out)
  unfolding count_errors
  count_errors-IsFresh err [] {out} fresh h =
      subst (λ d. IsFresh (keys d)) (ok_injective err out h) fresh
  count_errors-IsFresh err ((labels, v) ∷ items) {out} fresh h = elim (Bool-cases (truthy f v)) [
    | inr none_seen ↦ count_errors-IsFresh err items fresh (rw (count_errors, none_seen) at h)
    | inl seen ↦ elim (Result-cases (f.truncate v)) [
      | inl (n, whole) ↦
          let label = reason_label (lookup (codes "reason") labels) in
          count_errors-IsFresh (insert label n err) items (insert-IsFresh label n err fresh)
            (rw (count_errors, seen, whole) at h)
      | inr (x, whole) ↦ absurd (raised-ne-ok x out (rw (count_errors, seen, whole) at h))
    ]
  ]

  -- Of a summary that `write_summary` made, the dial errors in the order of the page have their
  -- reasons in increasing order, each once, and for every reason the number that the summary has.
  pub error_items-write_summary :
      (args : Args) (idle : Sample f) (rows : List (Sample f)) (ended : Text)
      (errors : List (Dict Text × f.Carrier)) {s : Summary f}
      → write_summary f args idle rows ended errors ≡ ok s
      → IsIncreasing (keys (error_items s.dial_errors_by_reason))
        × ((reason : Text)
            → lookup reason (error_items s.dial_errors_by_reason)
              ≡ lookup reason s.dial_errors_by_reason)
  unfolding error_items keys
  error_items-write_summary args idle rows ended errors {s} h =
      let counted = write_summary-count_errors f args idle rows ended errors h in
      let fresh = count_errors-IsFresh [] errors tt counted in
      let (same_keys, same_values) = sorted_items s.dial_errors_by_reason fresh in
      (
        subst IsIncreasing (sym same_keys)
            (sorted-IsIncreasing (keys s.dial_errors_by_reason) fresh),
        same_values,
      )
