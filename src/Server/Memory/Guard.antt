-- ===== src/Server/Memory/Guard.antt =====
-- When the guard of memory.go turns clients away.
use millionws.Base.{
  ℕ, ◌≤◌, ◌<◌, ◌≡◌, ◌≢◌, ◌↔◌, refl, sym, ap, subst, ◌∙◌, inl, inr, ◌⊎◌, Bool, true, false, Option,
  Option-cases, some-injective, none, some, List, [], ◌∷◌, ◌++◌, All, arith,
}
use millionws.Base.Text.{Text}
use millionws.Server.Memory.{
  read_cgroup_int, Shares, Admission, guard_switch, guard_ticks, guard_memory,
}

-- A tick that reads a number above, or that reads none below.
abbrev pub IsAbove : ℕ → Option Text → Type 0
IsAbove high file = (n : ℕ) × (read_cgroup_int file ≡ some n) × (high < n)

abbrev pub IsNotBelow : ℕ → Option Text → Type 0
IsNotBelow low file = (n : ℕ) → read_cgroup_int file ≡ some n → low ≤ n

-- A tick has read a number above `high`, and none behind it a number below `low`.
abbrev pub Exceeds : ℕ → ℕ → List (Option Text) → Type 0
Exceeds high low files =
    (before : List (Option Text)) × (file : Option Text) × (behind : List (Option Text)) × (files
      ≡ before ++ (file ∷ behind))
    × IsAbove high file
    × All (IsNotBelow low) behind

switch_true :
    (limit high low n : ℕ) (a : Admission)
    → low ≤ high
    → ((guard_switch limit high low n a).overloaded ≡ true)
      ↔ ((high < n) ⊎ ((a.overloaded ≡ true) × (low ≤ n)))
unfolding guard_switch
switch_true limit high low n a h = ground arith

cons-injective :
    {A : Type 0} (x y : A) (xs ys : List A)
    → ◌≡◌ {A = List A} (x ∷ xs) (y ∷ ys)
    → (x ≡ y) × (xs ≡ ys)
cons-injective x y xs ys h = (cc, cc)

false-ne-true : false ≢ true
false-ne-true h = cc

none-ne-some : (n : ℕ) → ◌≢◌ {A = Option ℕ} none (some n)
none-ne-some n h = cc

module _ (limit high low : ℕ) where
  Exceeds-cons :
      (file : Option Text) (files : List (Option Text))
      → Exceeds high low (file ∷ files)
        ↔ (Exceeds high low files ⊎ (IsAbove high file × All (IsNotBelow low) files))
  Exceeds-cons file files = (
    λ (before, f, behind, e, above, kept). first before f behind e above kept,
    λ h. elim h [
      | inl (before, f, behind, e, above, kept) ↦
          (file ∷ before, f, behind, ap (λ l. file ∷ l) e, above, kept)
      | inr (above, kept) ↦ ([], file, files, refl, above, kept)
    ],
  )
    where
      first :
          (before : List (Option Text)) (f : Option Text) (behind : List (Option Text))
          → file ∷ files ≡ before ++ (f ∷ behind)
          → IsAbove high f
          → All (IsNotBelow low) behind
          → Exceeds high low files ⊎ (IsAbove high file × All (IsNotBelow low) files)
      first [] f behind e above kept =
          let (same, rest) = cons-injective file f files behind e in
          inr (subst (IsAbove high) (sym same) above, subst (All (IsNotBelow low)) (sym rest) kept)
      first (g ∷ before) f behind e above kept = inl (
        before,
        f,
        behind,
        (cons-injective file g files (before ++ (f ∷ behind)) e).1,
        above,
        kept,
      )

  -- The flag behind a tick, by what the tick reads and the flag before it.
  abbrev Turns : Option Text → Bool → Bool → Type 0
  Turns file old new = (new ≡ true) ↔ (IsAbove high file ⊎ ((old ≡ true) × IsNotBelow low file))

  guard_ticks-next :
      low ≤ high
      → (file : Option Text) (files : List (Option Text)) (a : Admission)
      → (a' : Admission) × (guard_ticks limit high low (file ∷ files) a
          ≡ guard_ticks limit high low files a')
        × Turns file a.overloaded a'.overloaded
  unfolding guard_ticks
  guard_ticks-next ordered file files a = elim (Option-cases (read_cgroup_int file)) [
    | inl e ↦ (
      a,
      rw (guard_ticks, e) refl,
      (
        λ t. inr (t, λ n r. absurd (none-ne-some n (sym e ∙ r))),
        λ h. elim h [ inl (n, r, over) ↦ absurd (none-ne-some n (sym e ∙ r)) | inr (t, kept) ↦ t ],
      ),
    )
    | inr (n, e) ↦
        let switched = switch_true limit high low n a ordered in
        (
          guard_switch limit high low n a,
          rw (guard_ticks, e) refl,
          (
            λ t. elim (switched.0 t) [
              | inl over ↦ inl (n, e, over)
              | inr (old, kept) ↦
                  inr (old, λ m r. subst (λ k. low ≤ k) (some-injective n m (sym e ∙ r)) kept)
            ],
            λ h. elim h [
              | inl (m, r, over) ↦
                  switched.1 (inl (subst (λ k. high < k) (some-injective m n (sym r ∙ e)) over))
              | inr (old, kept) ↦ switched.1 (inr (old, kept n e))
            ],
          ),
        )
  ]

  guard_ticks-true :
      low ≤ high
      → (files : List (Option Text)) (a : Admission)
      → ((guard_ticks limit high low files a).overloaded ≡ true)
        ↔ (Exceeds high low files ⊎ ((a.overloaded ≡ true) × All (IsNotBelow low) files))
  unfolding guard_ticks
  guard_ticks-true ordered [] a = (
    λ t. inr (t, tt),
    λ h. elim h [
      | inl (before, f, behind, e, above, kept) ↦ absurd (nothing before f behind e)
      | inr (t, kept) ↦ t
    ],
  )
    where
      nothing :
          (before : List (Option Text)) (f : Option Text) (behind : List (Option Text))
          → [] ≢ before ++ (f ∷ behind)
      nothing [] f behind e = cc
      nothing (g ∷ before) f behind e = cc
  guard_ticks-true ordered (file ∷ files) a =
      let (a', e, turns) = guard_ticks-next ordered file files a in
      let later = guard_ticks-true ordered files a' in
      let split = Exceeds-cons file files in
      rw e (
        λ t. elim (later.0 t) [
          | inl exceeds ↦ inl (split.1 (inl exceeds))
          | inr (on, kept) ↦ elim (turns.0 on) [
            | inl above ↦ inl (split.1 (inr (above, kept)))
            | inr (old, here) ↦ inr (old, (here, kept))
          ]
        ],
        λ h. elim h [
          | inl exceeds ↦ elim (split.0 exceeds) [
            | inl behind ↦ later.1 (inl behind)
            | inr (above, kept) ↦ later.1 (inr (turns.1 (inl above), kept))
          ]
          | inr (old, (here, kept)) ↦ later.1 (inr (turns.1 (inr (old, here)), kept))
        ],
      )

guard_ticks-append :
    (limit high low : ℕ) (xs ys : List (Option Text)) (a : Admission)
    → guard_ticks limit high low (xs ++ ys) a
      ≡ guard_ticks limit high low ys (guard_ticks limit high low xs a)
unfolding guard_ticks
guard_ticks-append limit high low [] ys a = refl
guard_ticks-append limit high low (x ∷ xs) ys a = elim (Option-cases (read_cgroup_int x)) [
  | inl e ↦ rw (guard_ticks, e) (guard_ticks-append limit high low xs ys a)
  | inr (n, e) ↦
      rw (guard_ticks, e)
        (guard_ticks-append limit high low xs ys (guard_switch limit high low n a))
]

-- The guard goes on behind some ticks as from what they come to.
pub guard_memory-append :
    (shares : Shares) (max_file : Option Text) (xs ys : List (Option Text)) (a : Admission)
    → guard_memory shares max_file (xs ++ ys) a
      ≡ guard_memory shares max_file ys (guard_memory shares max_file xs a)
unfolding guard_memory
guard_memory-append shares max_file xs ys a = elim (Option-cases (read_cgroup_int max_file)) [
  | inl e ↦ rw (guard_memory, e) (rw (guard_memory, e) refl)
  | inr (limit, e) ↦
      rw (guard_memory, e)
        (rw (guard_memory, e)
          (guard_ticks-append limit (shares.scaled limit 90) (shares.scaled limit 85) xs ys a))
]

pub guard_memory-nil :
    (shares : Shares) (max_file : Option Text) (a : Admission)
    → guard_memory shares max_file [] a ≡ a
unfolding guard_memory guard_ticks
guard_memory-nil shares max_file a = elim (Option-cases (read_cgroup_int max_file)) [
  | inl e ↦ rw (guard_memory, e) refl
  | inr (limit, e) ↦ rw (guard_memory, e) refl
]

-- While no reading is below 85% of the limit, clients that are turned away go on to be.
pub guard_memory-stays :
    (shares : Shares) (max_file : Option Text) (files : List (Option Text)) (a : Admission)
    {limit : ℕ}
    → read_cgroup_int max_file ≡ some limit
    → a.overloaded ≡ true
    → All (IsNotBelow (shares.scaled limit 85)) files
    → (guard_memory shares max_file files a).overloaded ≡ true
unfolding guard_memory
guard_memory-stays shares max_file files a {limit} e on above =
    let ordered = shares.scaled_mono limit 85 90 (omega arith) in
    rw (guard_memory, e)
      ((guard_ticks-true limit (shares.scaled limit 90) (shares.scaled limit 85) ordered files a).1
        (inr (on, above)))

-- Where memory.max holds a limit and nobody was turned away before: behind any readings of
-- memory.current, new clients are turned away just if some reading was above 90% of the limit
-- and no reading behind it was below 85%; what cannot be read counts as no reading.
pub guard_memory-Exceeds :
    (shares : Shares) (max_file : Option Text) (files : List (Option Text)) (a : Admission)
    {limit : ℕ}
    → read_cgroup_int max_file ≡ some limit
    → a.overloaded ≡ false
    → ((guard_memory shares max_file files a).overloaded ≡ true)
      ↔ Exceeds (shares.scaled limit 90) (shares.scaled limit 85) files
unfolding guard_memory
guard_memory-Exceeds shares max_file files a {limit} e off =
    let ordered = shares.scaled_mono limit 85 90 (omega arith) in
    let ticks =
      guard_ticks-true limit (shares.scaled limit 90) (shares.scaled limit 85) ordered files a in
    rw (guard_memory, e)
      (
        λ t. elim (ticks.0 t) [
          | inl exceeds ↦ exceeds
          | inr (on, kept) ↦ absurd (false-ne-true (sym off ∙ on))
        ],
        λ exceeds. ticks.1 (inl exceeds),
      )
