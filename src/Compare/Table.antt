-- ===== src/Compare/Table.antt =====
-- What `main` of compare.py prints, against a description of the table that has no dict.
use millionws.Base.{
  ◌≡◌, refl, sym, ap, ◌∙◌, false, ◌||◌, Option, none, some, List, [], ◌∷◌, ◌++◌, map, filter, arith,
  Bool-cases, Option-cases, inl, inr,
}
use millionws.Base.Text.{Text, text_eq, member, IsFresh}
use millionws.Base.Text.Laws.{text_eq_iff, text_eq_refl}
use millionws.Base.Dict.{Dict, lookup, keys}
use millionws.Base.Result.{Result, ok, raised, Exception}
use millionws.Record.Number.{Float}
use millionws.Compare.{append_to, Run, load_from, load, row, rows_of, header, main}
use millionws.Compare.Groups.{group_of, first_seen, loaded, is_of, load-group_of, load-keys}

module _ {A : Type 0} where
  member-keys :
      (z w : Text) (s : A) (groups : Dict (List A))
      → member z (keys (append_to w s groups)) ≡ (member z (keys groups) || text_eq z w)
  unfolding append_to keys member
  member-keys z w s [] = ground arith
  member-keys z w s ((u, runs) ∷ groups) =
      ground (arith, text_eq_iff w u, text_eq_iff z u, text_eq_iff z w, member-keys z w s groups)

  append_to-IsFresh :
      (w : Text) (s : A) (groups : Dict (List A))
      → IsFresh (keys groups)
      → IsFresh (keys (append_to w s groups))
  unfolding append_to keys member
  append_to-IsFresh w s [] h = (refl, tt)
  append_to-IsFresh w s ((u, runs) ∷ groups) h = elim (Bool-cases (text_eq w u)) [
    | inl e ↦ rw e h
    | inr e ↦ rw e (
      member-keys u w s groups ∙ ground (arith, text_eq_iff w u, text_eq_iff u w, h.0),
      append_to-IsFresh w s groups h.1,
    )
  ]

  group_of-here :
      (u : Text) (runs : List A) (groups : Dict (List A)) → group_of u ((u, runs) ∷ groups) ≡ runs
  unfolding lookup
  group_of-here u runs groups = rw (group_of, text_eq_refl u) refl

  group_of-other :
      (u v : Text) (runs : List A) (groups : Dict (List A))
      → text_eq v u ≡ false
      → group_of v ((u, runs) ∷ groups) ≡ group_of v groups
  unfolding lookup
  group_of-other u v runs groups h = rw (group_of, h) refl

module _ (f : Float) where
  -- The first failure to read a summary.
  abbrev pub first_error : List (Option (Result (Run f))) → Option Exception
  first_error [] = none
  first_error (none ∷ dirs) = first_error dirs
  first_error (some (raised e) ∷ dirs) = some e
  first_error (some (ok s) ∷ dirs) = first_error dirs

  -- A row for each variant in the order of its first run, over all the runs of it.
  abbrev pub table : List (Run f) → List Text
  table runs =
      map (λ v. row f v (filter (is_of f v) runs)) (first_seen [] (map (λ s. s.variant) runs))

  load_from-raised :
      (dirs : List (Option (Result (Run f)))) (groups : Dict (List (Run f))) {e : Exception}
      → first_error dirs ≡ some e
      → load_from f groups dirs ≡ raised e
  unfolding load_from
  load_from-raised [] groups h = cc
  load_from-raised (none ∷ dirs) groups h = load_from-raised dirs groups h
  load_from-raised (some (raised e) ∷ dirs) groups h = cc
  load_from-raised (some (ok s) ∷ dirs) groups h =
      load_from-raised dirs (append_to s.variant s groups) h

  load_from-IsFresh :
      (dirs : List (Option (Result (Run f)))) (groups : Dict (List (Run f)))
      → IsFresh (keys groups)
      → first_error dirs ≡ none
      → (out : Dict (List (Run f))) × (load_from f groups dirs ≡ ok out) × IsFresh (keys out)
  unfolding load_from
  load_from-IsFresh [] groups d h = (groups, refl, d)
  load_from-IsFresh (none ∷ dirs) groups d h = load_from-IsFresh dirs groups d h
  load_from-IsFresh (some (raised e) ∷ dirs) groups d h = cc
  load_from-IsFresh (some (ok s) ∷ dirs) groups d h =
      load_from-IsFresh dirs (append_to s.variant s groups) (append_to-IsFresh s.variant s groups d)
        h

  -- A row of a variant that stands behind does not see the group in front.
  map-row_behind :
      (u : Text) (runs : List (Run f)) (groups : Dict (List (Run f))) (vs : List Text)
      → member u vs ≡ false
      → map (λ v. row f v (group_of v ((u, runs) ∷ groups))) vs
        ≡ map (λ v. row f v (group_of v groups)) vs
  unfolding member
  map-row_behind u runs groups [] h = refl
  map-row_behind u runs groups (v ∷ vs) h =
      let other : text_eq v u ≡ false = ground (arith, text_eq_iff u v, text_eq_iff v u) in
      ap (λ g. row f v g ∷ map (λ w. row f w (group_of w ((u, runs) ∷ groups))) vs)
        (group_of-other u v runs groups other)
      ∙ ap (λ rows. row f v (group_of v groups) ∷ rows)
          (map-row_behind u runs groups vs (ground arith))

  rows_of-eq :
      (groups : Dict (List (Run f)))
      → IsFresh (keys groups)
      → rows_of f groups ≡ map (λ v. row f v (group_of v groups)) (keys groups)
  unfolding rows_of keys
  rows_of-eq [] d = refl
  rows_of-eq ((u, runs) ∷ groups) d =
      ap (λ rows. row f u runs ∷ rows)
        (rows_of-eq groups d.1 ∙ sym (map-row_behind u runs groups (keys groups) d.0))
      ∙ ap (λ g. row f u g ∷ map (λ v. row f v (group_of v ((u, runs) ∷ groups))) (keys groups))
          (sym (group_of-here u runs groups))

  map-row :
      (of of' : Text → List (Run f)) (vs : List Text)
      → ((v : Text) → of v ≡ of' v)
      → map (λ v. row f v (of v)) vs ≡ map (λ v. row f v (of' v)) vs
  map-row of of' [] h = refl
  map-row of of' (v ∷ vs) h =
      ap (λ g. row f v g ∷ map (λ w. row f w (of w)) vs) (h v)
      ∙ ap (λ rows. row f v (of' v) ∷ rows) (map-row of of' vs h)

  rows_of-table :
      (dirs : List (Option (Result (Run f)))) (groups : Dict (List (Run f)))
      → IsFresh (keys groups)
      → load f dirs ≡ ok groups
      → rows_of f groups ≡ table (loaded f dirs)
  rows_of-table dirs groups d h =
      rows_of-eq groups d
      ∙ rw (load-keys f dirs h) (
          map-row (λ v. group_of v groups) (λ v. filter (is_of f v) (loaded f dirs))
            (first_seen [] (map (λ s. s.variant) (loaded f dirs))) (λ v. load-group_of f v dirs h))

  load-raised :
      (dirs : List (Option (Result (Run f)))) {e : Exception}
      → first_error dirs ≡ some e
      → load f dirs ≡ raised e
  unfolding load
  load-raised dirs h = load_from-raised dirs [] h

  load-IsFresh :
      (dirs : List (Option (Result (Run f))))
      → first_error dirs ≡ none
      → (out : Dict (List (Run f))) × (load f dirs ≡ ok out) × IsFresh (keys out)
  unfolding load keys
  load-IsFresh dirs h = load_from-IsFresh dirs [] tt h

  -- `main` raises the first failure to read a summary. Where there is none, it prints the header and
  -- a row for each variant, in the order in which the variants first appear on the command line, a
  -- row being made of all the runs of its variant in that order.
  pub main-table :
      (dirs : List (Option (Result (Run f))))
      → main f dirs ≡ elim (first_error dirs) [
        | some e ↦ raised e
        | none ↦ ok (header f ++ table (loaded f dirs))
      ]
  unfolding main
  main-table dirs = elim (Option-cases (first_error dirs)) [
    | inl clean ↦
        let (groups, e, d) = load-IsFresh dirs clean in
        rw (clean, main, e) (ap (λ rows. ok (header f ++ rows)) (rows_of-table dirs groups d e))
    | inr (e, failed) ↦ rw (failed, main, load-raised dirs failed) refl
  ]
