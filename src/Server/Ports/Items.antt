-- ===== src/Server/Ports/Items.antt =====
-- The items of `-ports`, printed and read back.
use mathlib.Core.List.{map-append}
use millionws.Base.{
  zero, ◌+◌, sym, ℕ, suc, ◌-◌, ◌≤◌, ◌≡◌, ◌≢◌, refl, ap, subst, ◌∙◌, append-nil, inr, true, false,
  none, some, List, [], ◌∷◌, ◌++◌, map, All, if◌then◌else◌, arith,
}
use millionws.Base.Int.{pos}
use millionws.Base.Text.{Text, codes, is_empty, split_at_from, split_at, join}
use millionws.Base.Text.Split.{Lacks, split_at-join}
use millionws.Base.Text.Integer.{decimal, is_digit}
use millionws.Base.Text.Integer.Digits.{IsDigits, decimal-IsDigits, decimal-ne-nil}
use millionws.Server.Text.{trim, is_space}
use millionws.Server.Text.Decimal.{parse_int-decimal, IsDense, trim-dense}
use millionws.Server.Ports.{
  cut_at_dash, count_from, check_range, with_start, parse_cut, followed_by, parse_item, parse_items,
  parse_ports,
}

-- A port, or the ports from one to another.
pub data Item : Type 0 where
  one : ℕ → Item
  span : (lo hi : ℕ) → Item

abbrev pub print : Item → Text
print (one n) = decimal n
print (span lo hi) = decimal lo ++ (b'-' ∷ decimal hi)

-- The numbers below another.
abbrev pub below : ℕ → List ℕ
below zero = []
below (suc n) = below n ++ (n ∷ [])

abbrev pub ports_of : Item → List ℕ
ports_of (one n) = n ∷ []
ports_of (span lo hi) = map (λ k. lo + k) (below (suc hi - lo))

abbrev pub IsPorts : Item → Type 0
IsPorts (one n) = (1 ≤ n) × (n ≤ 65_535)
IsPorts (span lo hi) = (1 ≤ lo) × (lo ≤ hi) × (hi ≤ 65_535)

abbrev pub all_ports : List Item → List ℕ
all_ports [] = []
all_ports (item ∷ items) = ports_of item ++ all_ports items

-- The characters of an item are digits and dashes.
abbrev IsPlain : Text → Type 0
IsPlain = All (λ c. (is_space c ≡ false) × (c ≢ b','))

plain_of_digit : (c : ℕ) → is_digit c ≡ true → (is_space c ≡ false) × (c ≢ b',') × (c ≢ b'-')
plain_of_digit c h = (ground arith, ground arith, ground arith)

IsDigits-IsPlain : (s t : Text) → IsDigits s → IsPlain t → IsPlain (s ++ t)
IsDigits-IsPlain [] t h k = k
IsDigits-IsPlain (c ∷ s) t h k =
    let (dense, no_comma, no_dash) = plain_of_digit c h.0 in
    ((dense, no_comma), IsDigits-IsPlain s t h.1 k)

decimal-IsPlain : (n : ℕ) → IsPlain (decimal n)
decimal-IsPlain n =
    subst IsPlain (append-nil (decimal n)) (IsDigits-IsPlain (decimal n) [] (decimal-IsDigits n) tt)

print-IsPlain : (item : Item) → IsPlain (print item)
print-IsPlain (one n) = decimal-IsPlain n
print-IsPlain (span lo hi) =
    IsDigits-IsPlain (decimal lo) (b'-' ∷ decimal hi) (decimal-IsDigits lo)
      ((refl, omega arith), decimal-IsPlain hi)

IsPlain-IsDense : (s : Text) → IsPlain s → IsDense s
IsPlain-IsDense [] h = tt
IsPlain-IsDense (c ∷ s) h = (h.0.0, IsPlain-IsDense s h.1)

IsPlain-Lacks : (s : Text) → IsPlain s → Lacks b',' s
IsPlain-Lacks [] h = tt
IsPlain-Lacks (c ∷ s) h = (h.0.1, IsPlain-Lacks s h.1)

cut_at_dash-none : (s : Text) → IsDigits s → cut_at_dash s ≡ (s, none)
unfolding cut_at_dash
cut_at_dash-none [] h = refl
cut_at_dash-none (c ∷ s) h = ground (arith, plain_of_digit c h.0, cut_at_dash-none s h.1)

cut_at_dash-some : (s t : Text) → IsDigits s → cut_at_dash (s ++ (b'-' ∷ t)) ≡ (s, some t)
unfolding cut_at_dash
cut_at_dash-some [] t h = refl
cut_at_dash-some (c ∷ s) t h = ground (arith, plain_of_digit c h.0, cut_at_dash-some s t h.1)

count_from-last :
    (start n : ℕ) → count_from start (suc n) ≡ count_from start n ++ ((start + n) ∷ [])
unfolding count_from
count_from-last start zero = ap (λ k. k ∷ []) (omega arith)
count_from-last start (suc n) =
    let same : suc start + n ≡ start + suc n = omega arith in
    ap (λ l. start ∷ l)
      (count_from-last (suc start) n ∙ ap (λ k. count_from (suc start) n ++ (k ∷ [])) same)

count_from-below : (start n : ℕ) → count_from start n ≡ map (λ k. start + k) (below n)
count_from-below start zero = unfold count_from in refl
count_from-below start (suc n) =
    count_from-last start n
    ∙ ap (λ l. l ++ ((start + n) ∷ [])) (count_from-below start n)
    ∙ sym (map-append (λ k. start + k) (below n) (n ∷ []))

with_start-decimal :
    (s item : Text) (lo hi : ℕ)
    → 1 ≤ lo
    → lo ≤ hi
    → hi ≤ 65_535
    → with_start s item (decimal lo) (some (pos hi)) ≡ inr (count_from lo (suc hi - lo))
with_start-decimal s item lo hi a b c =
    rw (with_start, parse_int-decimal lo (omega arith)) (ground arith)

with_start-one :
    (s item : Text) (n : ℕ) → 1 ≤ n → n ≤ 65_535 → with_start s item (decimal n) none ≡ inr (n ∷ [])
unfolding count_from
with_start-one s item n a b =
    let single : suc n - n ≡ 1 = omega arith in
    rw (with_start, parse_int-decimal n (omega arith))
      (with_range s item n a b ∙ ap (λ k. inr (count_from n k)) single)
  where
    with_range :
        (s item : Text) (n : ℕ)
        → 1 ≤ n
        → n ≤ 65_535
        → check_range s item (pos n) (pos n) ≡ inr (count_from n (suc n - n))
    with_range s item n a b = ground arith

parse_item-print :
    (s : Text) (item : Item) → IsPorts item → parse_item s (print item) ≡ inr (ports_of item)
unfolding parse_item
parse_item-print s (one n) h =
    ap (parse_cut s (decimal n)) (cut_at_dash-none (decimal n) (decimal-IsDigits n))
    ∙ with_start-one s (decimal n) n h.0 h.1
parse_item-print s (span lo hi) h =
    let item = decimal lo ++ (b'-' ∷ decimal hi) in
    ap (parse_cut s item) (cut_at_dash-some (decimal lo) (decimal hi) (decimal-IsDigits lo))
    ∙ rw (parse_cut, parse_int-decimal hi (omega arith))
        (with_start-decimal s item lo hi h.0 h.1 h.2)
    ∙ ap inr (count_from-below lo (suc hi - lo))

print-ne-nil : (item : Item) → is_empty (print item) ≡ false
print-ne-nil (one n) = filled (decimal n) (decimal-ne-nil n)
  where
    filled : (s : Text) → s ≢ [] → is_empty s ≡ false
    filled [] h = absurd (h refl)
    filled (c ∷ s) h = refl
print-ne-nil (span lo hi) = followed (decimal lo) (decimal hi)
  where
    followed : (s t : Text) → is_empty (s ++ (b'-' ∷ t)) ≡ false
    followed [] t = refl
    followed (c ∷ s) t = refl

parse_items-cons :
    (s part : Text) (parts : List Text)
    → parse_items s (part ∷ parts) ≡ (
        if is_empty (trim part)
        then parse_items s parts
        else followed_by (parse_item s (trim part)) (parse_items s parts))
unfolding parse_items
parse_items-cons s part parts = refl

parse_items-nil : (s : Text) → parse_items s [] ≡ inr []
unfolding parse_items
parse_items-nil s = refl

parse_items-print :
    (s : Text) (items : List Item)
    → All IsPorts items
    → parse_items s (map print items) ≡ inr (all_ports items)
parse_items-print s [] h = parse_items-nil s
parse_items-print s (item ∷ items) h =
    parse_items-cons s (print item) (map print items)
    ∙ rw
        (
          trim-dense (print item) (IsPlain-IsDense (print item) (print-IsPlain item)),
          print-ne-nil item,
          parse_item-print s item h.0,
          parse_items-print s items h.1,
        )
        refl

items-Lacks : (items : List Item) → All (Lacks b',') (map print items)
items-Lacks [] = tt
items-Lacks (item ∷ items) = (IsPlain-Lacks (print item) (print-IsPlain item), items-Lacks items)

-- Ports and ranges of ports between 1 and 65535, each range from its lower to its higher end, that are
-- printed with commas between them, are read back in their order, each range as all its ports.
pub parse_ports-print :
    (items : List Item)
    → All IsPorts items
    → parse_ports (join (codes ",") (map print items)) ≡ inr (all_ports items)
unfolding parse_ports split_at split_at_from join
parse_ports-print [] h = parse_items-cons [] [] [] ∙ rw (trim-dense [] tt) (parse_items-nil [])
parse_ports-print (item ∷ items) h =
    let s = join (codes ",") (map print (item ∷ items)) in
    ap (parse_items s)
      (split_at-join b',' (print item) (map print items) (items-Lacks (item ∷ items)))
    ∙ parse_items-print s (item ∷ items) h
