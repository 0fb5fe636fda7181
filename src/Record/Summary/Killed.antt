-- ===== src/Record/Summary/Killed.antt =====
-- The word that `oom_killed` of summary.json looks for in the container's state, which
-- `docker_state` prints as status, OOM-killed and exit code.
use millionws.Base.{
  ◌≡◌, ◌≢◌, refl, ap, ◌∙◌, Bool, false, ◌||◌, [], ◌∷◌, ◌++◌, All, arith, append_assoc,
}
use millionws.Base.Text.{Text, codes, contains, starts_with, text_eq}
use millionws.Base.Text.Laws.{text_eq_ne}
use millionws.Record.Summary.{is_oom_killed}

-- A word without spaces.
abbrev pub IsWord : Text → Type 0
IsWord = All (λ c. c ≢ b' ')

-- A space behind.
abbrev pub spaced : Text → Text → Text
spaced w rest = w ++ (b' ' ∷ rest)

abbrev pub true_word : Text
true_word = codes "true"

starts_with-spaced :
    (w t rest : Text)
    → IsWord w
    → IsWord t
    → starts_with (spaced w rest) (spaced t []) ≡ text_eq w t
unfolding starts_with text_eq
starts_with-spaced [] [] rest hw ht = refl
starts_with-spaced [] (d ∷ t) rest hw ht = ground arith
starts_with-spaced (c ∷ w) [] rest hw ht = ground arith
starts_with-spaced (c ∷ w) (d ∷ t) rest hw ht =
    ground (arith, starts_with-spaced w t rest hw.1 ht.1)

-- No match of " t " begins inside a word.
contains-word :
    (t w rest : Text)
    → IsWord w
    → contains (b' ' ∷ spaced t []) (w ++ rest) ≡ contains (b' ' ∷ spaced t []) rest
unfolding contains
contains-word t [] rest hw = refl
contains-word t (c ∷ w) rest hw = ground (arith, contains-word t w rest hw.1)

contains-spaced :
    (t w rest : Text)
    → IsWord w
    → IsWord t
    → contains (b' ' ∷ spaced t []) (b' ' ∷ spaced w rest)
      ≡ (text_eq w t || contains (b' ' ∷ spaced t []) (b' ' ∷ rest))
unfolding contains
contains-spaced t w rest hw ht =
    rw (starts_with-spaced w t rest hw ht, contains-word t w (b' ' ∷ rest) hw) refl

true-IsWord : IsWord true_word
true-IsWord = ground arith

state_text :
    (status flag code : Text)
    → spaced status (spaced flag code) ++ (b' ' ∷ []) ≡ spaced status (spaced flag (spaced code []))
state_text status flag code =
    append_assoc status (b' ' ∷ spaced flag code) (b' ' ∷ [])
    ∙ ap (λ t. spaced status t) (append_assoc flag (b' ' ∷ code) (b' ' ∷ []))

contains-end : contains (codes " true ") (b' ' ∷ []) ≡ false
unfolding contains
contains-end = refl

is_oom_killed-text :
    (status flag code : Text)
    → is_oom_killed (spaced status (spaced flag code))
      ≡ contains (codes " true ") (b' ' ∷ spaced status (spaced flag (spaced code [])))
unfolding is_oom_killed
is_oom_killed-text status flag code =
    ap (λ t. contains (codes " true ") (b' ' ∷ t)) (state_text status flag code)

or-false : (b : Bool) → (b || false) ≡ b
or-false b = ground arith

-- Of a container's state that is printed as three words without spaces in them, the status and the exit code not being
-- "true", `oom_killed` tells whether the second word is "true".
is_oom_killed_lem :
    (status flag code : Text)
    → IsWord status
    → IsWord flag
    → IsWord code
    → status ≢ true_word
    → code ≢ true_word
    → is_oom_killed (spaced status (spaced flag code)) ≡ text_eq flag true_word
is_oom_killed_lem status flag code hs hf hc ns nc =
    let mark = true_word in
    is_oom_killed-text status flag code
    ∙ rw
        (
          contains-spaced mark status (spaced flag (spaced code [])) hs true-IsWord,
          text_eq_ne status mark ns,
          contains-spaced mark flag (spaced code []) hf true-IsWord,
          contains-spaced mark code [] hc true-IsWord,
          text_eq_ne code mark nc,
          contains-end,
        )
        (or-false (text_eq flag mark))
