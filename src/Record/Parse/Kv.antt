-- ===== src/Record/Parse/Kv.antt =====
-- The flat keyed files of a cgroup, a line "key value" for each entry, and `kv` of record.py.
use millionws.Base.{ℕ, ◌≡◌, ◌≢◌, refl, ap, ◌∙◌, List, [], ◌∷◌, ◌++◌, All}
use millionws.Base.Int.{ℤ, pos}
use millionws.Base.Text.{Text, split, splitlines}
use millionws.Base.Text.Words.{
  IsSolid, IsLine, IsSolid-IsLine, IsLine-append, splitlines-line, split-two,
}
use millionws.Base.Text.Integer.{decimal}
use millionws.Base.Text.Integer.Digits.{
  decimal-IsDigits, IsDigits-IsSolid, decimal-ne-nil, int_of_text-decimal,
}
use millionws.Base.Dict.{Dict, insert}
use millionws.Base.Result.{ok}
use millionws.Record.Parse.{kv, kv_lines, kv_line}

-- A file of the cgroup, such as memory.stat.
abbrev pub render : List (Text × ℕ) → Text
render [] = []
render ((key, n) ∷ entries) = (key ++ (b' ' ∷ decimal n)) ++ (b'\n' ∷ render entries)

-- The dict of the entries, a later one of the same key replacing an earlier one.
abbrev pub store_all : Dict ℤ → List (Text × ℕ) → Dict ℤ
store_all out [] = out
store_all out ((key, n) ∷ entries) = store_all (insert key (pos n) out) entries

-- A key is not empty and has no white space.
abbrev pub IsKey : Text × ℕ → Type 0
IsKey (key, _) = (key ≢ []) × IsSolid key

decimal-IsSolid : (n : ℕ) → IsSolid (decimal n)
decimal-IsSolid n = IsDigits-IsSolid (decimal n) (decimal-IsDigits n)

entry-IsLine : (key : Text) (n : ℕ) → IsSolid key → IsLine (key ++ (b' ' ∷ decimal n))
entry-IsLine key n h =
    IsLine-append key (b' ' ∷ decimal n) (IsSolid-IsLine key h)
      (refl, IsSolid-IsLine (decimal n) (decimal-IsSolid n))

kv_line-entry :
    (key : Text) (n : ℕ) (out : Dict ℤ)
    → IsKey (key, n)
    → kv_line out (split (key ++ (b' ' ∷ decimal n))) ≡ ok (insert key (pos n) out)
kv_line-entry key n out (ne, h) =
    rw
      (split-two key (decimal n) h (decimal-IsSolid n) ne (decimal-ne-nil n), int_of_text-decimal n)
      refl

kv_lines-render :
    (entries : List (Text × ℕ)) (out : Dict ℤ)
    → All IsKey entries
    → kv_lines out (splitlines (render entries)) ≡ ok (store_all out entries)
unfolding kv_lines
kv_lines-render [] out h = unfold splitlines in refl
kv_lines-render ((key, n) ∷ entries) out h =
    ap (kv_lines out) (splitlines-line _ (render entries) (entry-IsLine key n h.0.1))
    ∙ rw (kv_line-entry key n out h.0, kv_lines)
        (kv_lines-render entries (insert key (pos n) out) h.1)

kv-eq : (text : Text) → kv text ≡ kv_lines [] (splitlines text)
unfolding kv
kv-eq text = refl

-- Of a file with a line "key value" for each entry, the keys being words without white space, `kv`
-- returns the dict that stores the entries in order, so that the last value of a key stays.
pub kv-render :
    (entries : List (Text × ℕ))
    → All IsKey entries
    → kv (render entries) ≡ ok (store_all [] entries)
kv-render entries h = kv-eq (render entries) ∙ kv_lines-render entries [] h
