-- ===== src/Base/Text/Split.antt =====
-- `split` at a separator of one character, of parts that do not have it.
use Prim.Native.Nat.{ℕ}
use mathlib.Core.Path.{◌≡◌, refl, ap, ◌∙◌}
use mathlib.Core.Logic.{◌≢◌}
use mathlib.Core.Bool.{false}
use mathlib.Core.List.{List, [], ◌∷◌, ◌++◌, append-nil, append_assoc}
use native.Mathlib.Omega.{arith}
use millionws.Base.Tests.{◌==◌}
use millionws.Base.Lists.{All}
use millionws.Base.Text.{Text, split_at_from, split_at, join}

-- Without the separator.
abbrev pub Lacks : ℕ → Text → Type 0
Lacks sep = All (λ c. c ≢ sep)

pub Lacks-append : (sep : ℕ) (s t : Text) → Lacks sep s → Lacks sep t → Lacks sep (s ++ t)
Lacks-append sep [] t hs ht = ht
Lacks-append sep (c ∷ s) t hs ht = (hs.0, Lacks-append sep s t hs.1 ht)

not_separator : (sep c : ℕ) → c ≢ sep → (c == sep) ≡ false
not_separator sep c h = ground arith

split_at_from-part :
    (sep : ℕ) (word s t : Text)
    → Lacks sep s
    → split_at_from sep word (s ++ (sep ∷ t)) ≡ (word ++ s) ∷ split_at sep t
unfolding split_at_from split_at
split_at_from-part sep word [] t h = rw (append-nil word) (ground arith)
split_at_from-part sep word (c ∷ s) t h = rw (not_separator sep c h.0) (
    split_at_from-part sep (word ++ (c ∷ [])) s t h.1
    ∙ ap (λ w. w ∷ split_at sep t) (append_assoc word (c ∷ []) s))

split_at_from-last :
    (sep : ℕ) (word s : Text) → Lacks sep s → split_at_from sep word s ≡ (word ++ s) ∷ []
unfolding split_at_from
split_at_from-last sep word [] h = rw (append-nil word) refl
split_at_from-last sep word (c ∷ s) h = rw (not_separator sep c h.0) (
    split_at_from-last sep (word ++ (c ∷ [])) s h.1
    ∙ ap (λ w. w ∷ []) (append_assoc word (c ∷ []) s))

pub split_at-part :
    (sep : ℕ) (s t : Text) → Lacks sep s → split_at sep (s ++ (sep ∷ t)) ≡ s ∷ split_at sep t
unfolding split_at
split_at-part sep s t h = split_at_from-part sep [] s t h

pub split_at-last : (sep : ℕ) (s : Text) → Lacks sep s → split_at sep s ≡ s ∷ []
unfolding split_at
split_at-last sep s h = split_at_from-last sep [] s h

-- Parts that are joined by the separator are parted again.
pub split_at-join :
    (sep : ℕ) (s : Text) (ss : List Text)
    → All (Lacks sep) (s ∷ ss)
    → split_at sep (join (sep ∷ []) (s ∷ ss)) ≡ s ∷ ss
unfolding join
split_at-join sep s [] h = split_at-last sep s h.0
split_at-join sep s (t ∷ ss) h =
    split_at-part sep s (join (sep ∷ []) (t ∷ ss)) h.0
    ∙ ap (λ l. s ∷ l) (split_at-join sep t ss h.1)
