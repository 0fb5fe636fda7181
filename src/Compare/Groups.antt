-- ===== src/Compare/Groups.antt =====
-- The groups that `load` of compare.py makes, against the list of the runs.
use millionws.Base.{
  ◌≡◌, refl, sym, ap, ◌∙◌, Bool, Option, none, some, List, [], ◌∷◌, ◌++◌, map, filter, append-nil,
  append_assoc, arith, Bool-cases, inl, inr, if◌then◌else◌,
}
use millionws.Base.Text.{Text, text_eq, member}
use millionws.Base.Text.Laws.{text_eq_iff}
use millionws.Base.Dict.{Dict, lookup, keys}
use millionws.Base.Result.{Result, ok, raised, ok_injective}
use millionws.Record.Number.{Float}
use millionws.Compare.{append_to, Run, load_from, load}

-- The runs of a variant, in a dict of groups.
abbrev pub group_of {ℓ} : {A : Type ℓ} → Text → Dict (List A) → List A
group_of v groups = elim (lookup v groups) [ none ↦ [] | some runs ↦ runs ]

-- The strings in the order in which each first appears, but for those already seen.
abbrev pub first_seen : List Text → List Text → List Text
first_seen seen [] = []
first_seen seen (v ∷ vs) =
    let old = first_seen seen vs in
    let new = first_seen (seen ++ (v ∷ [])) vs in if member v seen then old else v ∷ new

module _ {A : Type 0} where
  group_of-append_to :
      (v w : Text) (s : A) (groups : Dict (List A))
      → group_of v (append_to w s groups)
        ≡ (if text_eq v w then group_of v groups ++ (s ∷ []) else group_of v groups)
  unfolding append_to lookup
  group_of-append_to v w s [] = ground arith
  group_of-append_to v w s ((u, runs) ∷ groups) =
      ground
        (arith, text_eq_iff v w, text_eq_iff w u, text_eq_iff v u, group_of-append_to v w s groups)

  keys-append_to :
      (w : Text) (s : A) (groups : Dict (List A))
      → keys (append_to w s groups)
        ≡ (if member w (keys groups) then keys groups else keys groups ++ (w ∷ []))
  unfolding append_to keys member
  keys-append_to w s [] = refl
  keys-append_to w s ((u, runs) ∷ groups) = ground (arith, keys-append_to w s groups)

seen_or_new :
    (v : Text) (seen vs : List Text)
    → let seen' = if member v seen then seen else seen ++ (v ∷ []) in
      seen' ++ first_seen seen' vs ≡ seen ++ first_seen seen (v ∷ vs)
seen_or_new v seen vs = elim (Bool-cases (member v seen)) [
  | inl old ↦ rw old refl
  | inr new ↦ rw new (append_assoc seen (v ∷ []) _)
]

module _ (f : Float) where
  -- The runs that the directories hold, in order, where none fails to load.
  abbrev pub loaded : List (Option (Result (Run f))) → List (Run f)
  loaded [] = []
  loaded (none ∷ dirs) = loaded dirs
  loaded (some (raised e) ∷ dirs) = loaded dirs
  loaded (some (ok s) ∷ dirs) = s ∷ loaded dirs

  abbrev pub is_of : Text → Run f → Bool
  is_of v s = text_eq v s.variant

  grown :
      (v : Text) (s : Run f) (runs rest : List (Run f))
      → (if is_of v s then runs ++ (s ∷ []) else runs) ++ filter (is_of v) rest
        ≡ runs ++ filter (is_of v) (s ∷ rest)
  grown v s runs rest = elim (Bool-cases (is_of v s)) [
    | inl same ↦ rw same (append_assoc runs (s ∷ []) (filter (is_of v) rest))
    | inr other ↦ rw other refl
  ]

  load_from-group_of :
      (v : Text) (dirs : List (Option (Result (Run f)))) (groups : Dict (List (Run f)))
      {out : Dict (List (Run f))}
      → load_from f groups dirs ≡ ok out
      → group_of v out ≡ group_of v groups ++ filter (is_of v) (loaded dirs)
  unfolding load_from
  load_from-group_of v [] groups {out} h =
      ap (group_of v) (sym (ok_injective groups out h)) ∙ sym (append-nil (group_of v groups))
  load_from-group_of v (none ∷ dirs) groups h = load_from-group_of v dirs groups h
  load_from-group_of v (some (raised e) ∷ dirs) groups h = cc
  load_from-group_of v (some (ok s) ∷ dirs) groups h =
      load_from-group_of v dirs (append_to s.variant s groups) h
      ∙ rw (group_of-append_to v s.variant s groups) (grown v s (group_of v groups) (loaded dirs))

  load_from-keys :
      (dirs : List (Option (Result (Run f)))) (groups : Dict (List (Run f)))
      {out : Dict (List (Run f))}
      → load_from f groups dirs ≡ ok out
      → keys out ≡ keys groups ++ first_seen (keys groups) (map (λ s. s.variant) (loaded dirs))
  unfolding load_from
  load_from-keys [] groups {out} h =
      ap keys (sym (ok_injective groups out h)) ∙ sym (append-nil (keys groups))
  load_from-keys (none ∷ dirs) groups h = load_from-keys dirs groups h
  load_from-keys (some (raised e) ∷ dirs) groups h = cc
  load_from-keys (some (ok s) ∷ dirs) groups h =
      load_from-keys dirs (append_to s.variant s groups) h
      ∙ rw (keys-append_to s.variant s groups)
          (seen_or_new s.variant (keys groups) (map (λ r. r.variant) (loaded dirs)))

  -- Where `load` returns, the group of a variant holds the runs of that variant, all of them and in
  -- the order of the command line.
  pub load-group_of :
      (v : Text) (dirs : List (Option (Result (Run f)))) {groups : Dict (List (Run f))}
      → load f dirs ≡ ok groups
      → group_of v groups ≡ filter (is_of v) (loaded dirs)
  unfolding load lookup
  load-group_of v dirs h = load_from-group_of v dirs [] h

  -- Where `load` returns, the variants stand in the order in which they first appear on the command
  -- line, each once.
  pub load-keys :
      (dirs : List (Option (Result (Run f)))) {groups : Dict (List (Run f))}
      → load f dirs ≡ ok groups
      → keys groups ≡ first_seen [] (map (λ s. s.variant) (loaded dirs))
  unfolding load keys
  load-keys dirs h = load_from-keys dirs [] h
