-- ===== src/Server/Ports.antt =====
-- main.go: the limit of connections and the addresses that the server listens on.
pub mod Items
pub mod Addresses
mod Tests
use millionws.Base.{
  ℕ, suc, zero, ◌+◌, ◌-◌, Bool, true, false, ◌||◌, Option, none, some, List, [], ◌∷◌, ◌++◌, map,
  ◌⊎◌, inl, inr, if◌then◌else◌, ltb, ◌==◌,
}
use millionws.Base.Int.{ℤ, pos, ltb_ℤ, eqb_ℤ}
use millionws.Base.Text.{Text, codes, is_empty, split_at}
use millionws.Base.Text.Integer.{decimal_ℤ}
use millionws.Server.Text.{trim, parse_int}

-- The errors, with the texts that their messages quote.
pub data Failure : Type 0 where
  -- `-maxload`
  max_load : ℤ → Failure
  -- `bad -ports s`, for a part that is no number
  bad_number : (s part : Text) → Failure
  -- `bad -ports s: item out of range`
  out_of_range : (s item : Text) → Failure

-- `validateMaxLoad`; `none` is nil.
unfoldable pub validate_max_load : ℤ → Option Failure
validate_max_load n = if ltb_ℤ n (pos 1) then some (max_load n) else none

-- What stands before and behind the first "-", if there is one.
unfoldable pub cut_at_dash : Text → Text × Option Text
cut_at_dash [] = ([], none)
cut_at_dash (c ∷ s) =
    let (before, behind) = cut_at_dash s in if c == b'-' then ([], some s) else (c ∷ before, behind)

-- `for p := start; p <= hi; p++`, of a number of ports.
unfoldable pub count_from : ℕ → ℕ → List ℕ
count_from start zero = []
count_from start (suc n) = start ∷ count_from (suc start) n

-- `start < 1 || hi > 65535 || hi < start`
abbrev pub is_out_of_range : ℤ → ℤ → Bool
is_out_of_range start hi = ltb_ℤ start (pos 1) || (ltb_ℤ (pos 65_535) hi || ltb_ℤ hi start)

abbrev pub range_of : ℤ → ℤ → List ℕ
range_of (pos start) (pos hi) = count_from start (suc hi - start)
range_of start hi = []

abbrev pub check_range : Text → Text → ℤ → ℤ → Failure ⊎ List ℕ
check_range s item start hi =
    if is_out_of_range start hi then inl (out_of_range s item) else inr (range_of start hi)

-- `lo`, of an item whose `hi` has been read, or that has none.
abbrev pub with_start : Text → Text → Text → Option ℤ → Failure ⊎ List ℕ
with_start s item lo hi = elim (parse_int lo) [
  | none ↦ inl (bad_number s lo)
  | some start ↦ check_range s item start (elim hi [ none ↦ start | some n ↦ n ])
]

-- `hi`, if there is one, and then `lo`.
abbrev pub parse_cut : Text → Text → Text × Option Text → Failure ⊎ List ℕ
parse_cut s item (lo, none) = with_start s item lo none
parse_cut s item (lo, some part) = elim (parse_int part) [
  | none ↦ inl (bad_number s part)
  | some hi ↦ with_start s item lo (some hi)
]

-- The body of the loop of `parsePorts`, for an item that is not empty.
unfoldable pub parse_item : Text → Text → Failure ⊎ List ℕ
unfolding cut_at_dash parse_int count_from
parse_item s item = parse_cut s item (cut_at_dash item)

-- `ports = append(ports, ...)`: what is read before, and what is read behind it.
abbrev pub followed_by : Failure ⊎ List ℕ → Failure ⊎ List ℕ → Failure ⊎ List ℕ
followed_by (inl e) rest = inl e
followed_by (inr ports) (inl e) = inl e
followed_by (inr ports) (inr more) = inr (ports ++ more)

unfoldable pub parse_items : Text → List Text → Failure ⊎ List ℕ
unfolding parse_item trim
parse_items s [] = inr []
parse_items s (part ∷ parts) =
    let item = trim part in
    let rest = parse_items s parts in
    if is_empty item then rest else followed_by (parse_item s item) rest

-- `parsePorts`
unfoldable pub parse_ports : Text → Failure ⊎ List ℕ
unfolding parse_items
parse_ports s = parse_items s (split_at b',' s)

abbrev pub is_in : ℤ → List ℤ → Bool
is_in p [] = false
is_in p (q ∷ qs) = eqb_ℤ p q || is_in p qs

-- The loop of `listenAddrs`: the ports that are not in `seen` yet, each once.
unfoldable pub unseen : List ℤ → List ℤ → List ℤ
unseen seen [] = []
unseen seen (p ∷ ps) =
    let skipped = unseen seen ps in
    let rest = unseen (p ∷ seen) ps in if is_in p seen then skipped else p ∷ rest

abbrev pub has_colon : Text → Bool
has_colon [] = false
has_colon (c ∷ s) = c == b':' || has_colon s

-- `net.JoinHostPort(host, strconv.Itoa(port))`
abbrev pub join_host_port : Text → ℤ → Text
join_host_port host port =
    if has_colon host
    then codes "[" ++ (host ++ (codes "]:" ++ decimal_ℤ port))
    else host ++ (codes ":" ++ decimal_ℤ port)

-- `listenAddrs`
unfoldable pub listen_addrs : Text → ℤ → Text → Failure ⊎ List Text
unfolding parse_ports unseen
listen_addrs host port extra = elim (parse_ports extra) [
  | inl e ↦ inl e
  | inr more ↦ inr (map (join_host_port host) (unseen [] (port ∷ map pos more)))
]

-- `main`, up to the engine: the addresses that it is given, or the error that ends the program.
unfoldable pub addresses_or_exit : ℤ → Text → ℤ → Text → Failure ⊎ List Text
unfolding validate_max_load listen_addrs
addresses_or_exit cap host port extra = elim (validate_max_load cap) [
  | some e ↦ inl e
  | none ↦ listen_addrs host port extra
]
