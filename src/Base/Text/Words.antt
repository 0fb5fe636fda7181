-- ===== src/Base/Text/Words.antt =====
-- Lines and words: `splitlines` of lines that end in "\n", and `split` of words with a space between.
use Prim.Native.Nat.{ℕ}
use mathlib.Core.Path.{◌≡◌, refl, ap, ◌∙◌}
use mathlib.Core.Logic.{◌≢◌}
use mathlib.Core.Bool.{false}
use mathlib.Core.List.{List, [], ◌∷◌, ◌++◌, append-nil, append_assoc}
use native.Mathlib.Omega.{arith}
use millionws.Base.Lists.{All}
use millionws.Base.Text.{
  Text, is_space, is_line_break, lstrip, rstrip, strip, emit, split_from, split, lines_from,
  splitlines,
}

-- No white space.
abbrev pub IsSolid : Text → Type 0
IsSolid = All (λ c. is_space c ≡ false)

-- No character at which a line ends.
abbrev pub IsLine : Text → Type 0
IsLine = All (λ c. is_line_break c ≡ false)

pub line_break_of_solid : (c : ℕ) → is_space c ≡ false → is_line_break c ≡ false
line_break_of_solid c h = ground arith

pub IsSolid-IsLine : (s : Text) → IsSolid s → IsLine s
IsSolid-IsLine [] h = tt
IsSolid-IsLine (c ∷ s) h = (line_break_of_solid c h.0, IsSolid-IsLine s h.1)

pub IsLine-append : (s t : Text) → IsLine s → IsLine t → IsLine (s ++ t)
IsLine-append [] t hs ht = ht
IsLine-append (c ∷ s) t hs ht = (hs.0, IsLine-append s t hs.1 ht)

lines_from-IsLine :
    (line l rest : Text)
    → IsLine l
    → lines_from false line (l ++ (b'\n' ∷ rest)) ≡ (line ++ l) ∷ lines_from false [] rest
unfolding lines_from
lines_from-IsLine line [] rest h = rw append-nil refl
lines_from-IsLine line (c ∷ l) rest h =
    rw (h.0, lines_from-IsLine (line ++ (c ∷ [])) l rest h.1)
      (ap (λ x. x ∷ lines_from false [] rest) (append_assoc line (c ∷ []) l))

-- A line with its end is taken off whole.
pub splitlines-line :
    (l rest : Text) → IsLine l → splitlines (l ++ (b'\n' ∷ rest)) ≡ l ∷ splitlines rest
unfolding splitlines
splitlines-line l rest h = lines_from-IsLine [] l rest h

split_from-word :
    (word w rest : Text)
    → IsSolid w
    → split_from word (w ++ (b' ' ∷ rest)) ≡ emit (word ++ w) (split_from [] rest)
unfolding split_from
split_from-word word [] rest h = rw append-nil refl
split_from-word word (c ∷ w) rest h =
    rw (h.0, split_from-word (word ++ (c ∷ [])) w rest h.1)
      (ap (λ x. emit x (split_from [] rest)) (append_assoc word (c ∷ []) w))

split_from-last : (word w : Text) → IsSolid w → split_from word w ≡ emit (word ++ w) []
unfolding split_from
split_from-last word [] h = rw append-nil refl
split_from-last word (c ∷ w) h =
    rw (h.0, split_from-last (word ++ (c ∷ [])) w h.1)
      (ap (λ x. emit x []) (append_assoc word (c ∷ []) w))

emit-cons : (w : Text) (ws : List Text) → w ≢ [] → emit w ws ≡ w ∷ ws
emit-cons [] ws h = absurd (h refl)
emit-cons (c ∷ w) ws h = refl

-- Two words with a space between them.
pub split-two :
    (v w : Text) → IsSolid v → IsSolid w → v ≢ [] → w ≢ [] → split (v ++ (b' ' ∷ w)) ≡ v ∷ w ∷ []
unfolding split
split-two v w hv hw nv nw =
    split_from-word [] v w hv
    ∙ rw (split_from-last [] w hw, emit-cons w [] nw, emit-cons v (w ∷ []) nv) refl

lstrip-solid : (s : Text) → IsSolid s → lstrip s ≡ s
unfolding lstrip
lstrip-solid [] h = refl
lstrip-solid (c ∷ s) h = rw h.0 refl

rstrip-solid : (s : Text) → IsSolid s → rstrip s ≡ s
unfolding rstrip
rstrip-solid [] h = refl
rstrip-solid (c ∷ s) h = ground (arith, rstrip-solid s h.1)

pub strip-solid : (s : Text) → IsSolid s → strip s ≡ s
unfolding strip
strip-solid s h = rw (lstrip-solid s h, rstrip-solid s h) refl
