-- ===== src/Base/Text.antt =====
-- Python's `str` as a list of code points, with the methods that the scripts call.
pub mod Laws
pub mod Integer
pub mod Words
pub mod Split
use Prim.Native.Nat.{ℕ, ◌+◌, ◌-◌, ◌*◌}
use Prim.Native.Char.{code}
use Prim.Native.String.{String}
use mathlib.Core.Path.{◌≡◌}
use mathlib.Core.Bool.{Bool, true, false, ◌&&◌, ◌||◌}
use mathlib.Core.Option.{Option, none, some}
use mathlib.Core.List.{List, [], ◌∷◌, ◌++◌}
use millionws.Base.Tests.{leb, ◌==◌, if◌then◌else◌}

abbrev pub Text : Type 0
Text = List ℕ

-- A literal of the source.
abbrev pub codes : String → Text
codes String.[] = []
codes (String.◌∷◌ c s) = code c ∷ codes s

-- `s == t`
unfoldable pub text_eq : Text → Text → Bool
text_eq [] [] = true
text_eq [] (d ∷ t) = false
text_eq (c ∷ s) [] = false
text_eq (c ∷ s) (d ∷ t) = c == d && text_eq s t

-- `bool(s)` is false just for the empty string.
abbrev pub is_empty : Text → Bool
is_empty [] = true
is_empty (c ∷ s) = false

-- The code points that `str.isspace`, `str.split()` and `str.strip()` count as white space.
abbrev pub is_space : ℕ → Bool
is_space c =
    (leb 9 c && leb c 13)
    || ((leb 28 c && leb c 32)
        || (c == 0x85
            || (c == 0xa0
                || (c == 0x1680
                    || ((leb 0x2000 c && leb c 0x200a)
                        || (c == 0x2028
                            || (c == 0x2029 || (c == 0x202f || (c == 0x205f || c == 0x3000)))))))))

-- The code points at which `str.splitlines()` ends a line.
abbrev pub is_line_break : ℕ → Bool
is_line_break c =
    (leb 10 c && leb c 13)
    || ((leb 28 c && leb c 30) || (c == 0x85 || (c == 0x2028 || c == 0x2029)))

unfoldable pub lstrip : Text → Text
lstrip [] = []
lstrip (c ∷ s) = let rest = lstrip s in if is_space c then rest else c ∷ s

unfoldable pub rstrip : Text → Text
rstrip [] = []
rstrip (c ∷ s) = elim (rstrip s) [ [] ↦ if is_space c then [] else c ∷ [] | d ∷ t ↦ c ∷ d ∷ t ]

-- `s.strip()`
unfoldable pub strip : Text → Text
unfolding lstrip rstrip
strip s = rstrip (lstrip s)

abbrev pub emit : Text → List Text → List Text
emit [] ws = ws
emit (c ∷ s) ws = (c ∷ s) ∷ ws

-- `s.split()`, after the word `word` has been read in part.
unfoldable pub split_from : Text → Text → List Text
split_from word [] = emit word []
split_from word (c ∷ s) =
    let next = split_from [] s in
    let more = split_from (word ++ (c ∷ [])) s in if is_space c then emit word next else more

unfoldable pub split : Text → List Text
unfolding split_from
split s = split_from [] s

-- `s.splitlines()`, after `line` has been read; `cr` says that the last line ended in "\r", so that
-- a "\n" that follows belongs to it.
unfoldable pub lines_from : Bool → Text → Text → List Text
lines_from cr line [] = emit line []
lines_from cr line (c ∷ s) =
    let skipped = lines_from false line s in
    let next = lines_from (c == 13) [] s in
    let more = lines_from false (line ++ (c ∷ [])) s in
    if cr && c == 10 then skipped else if is_line_break c then line ∷ next else more

unfoldable pub splitlines : Text → List Text
unfolding lines_from
splitlines s = lines_from false [] s

-- `s.partition(sep)` for a separator of one character: what stands before and behind the first
-- one. The middle part is dropped, as the callers do.
unfoldable pub partition : ℕ → Text → Text × Text
partition sep [] = ([], [])
partition sep (c ∷ s) =
    let (before, behind) = partition sep s in if c == sep then ([], s) else (c ∷ before, behind)

-- `s.startswith(prefix)`
unfoldable pub starts_with : Text → Text → Bool
starts_with s [] = true
starts_with [] (d ∷ prefix) = false
starts_with (c ∷ s) (d ∷ prefix) = c == d && starts_with s prefix

-- `part in s`
unfoldable pub contains : Text → Text → Bool
unfolding starts_with
contains part [] = starts_with [] part
contains part (c ∷ s) = starts_with (c ∷ s) part || contains part s

-- `sep.join(ss)`
unfoldable pub join : Text → List Text → Text
join sep [] = []
join sep (s ∷ []) = s
join sep (s ∷ t ∷ ss) = s ++ (sep ++ join sep (t ∷ ss))

unfoldable pub split_at_from : ℕ → Text → Text → List Text
split_at_from sep word [] = word ∷ []
split_at_from sep word (c ∷ s) =
    let next = split_at_from sep [] s in
    let more = split_at_from sep (word ++ (c ∷ [])) s in if c == sep then word ∷ next else more

-- `s.split(sep)`, for a separator of one character.
unfoldable pub split_at : ℕ → Text → List Text
unfolding split_at_from
split_at sep s = split_at_from sep [] s

-- `a in xs`, of a list of strings.
unfoldable pub member : Text → List Text → Bool
member a [] = false
member a (x ∷ xs) = text_eq a x || member a xs

-- No text stands in the list twice.
abbrev pub IsFresh : List Text → Type 0
IsFresh [] = Unit
IsFresh (x ∷ xs) = (member x xs ≡ false) × IsFresh xs
