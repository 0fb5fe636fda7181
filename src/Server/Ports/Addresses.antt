-- ===== src/Server/Ports/Addresses.antt =====
-- The addresses that the server listens on: each port once, and no port that was not asked for.
use millionws.Base.{
  ℕ, suc, zero, ◌+◌, ◌-◌, ◌≤◌, ◌≡◌, refl, subst, inl, inr, ◌⊎◌, true, false, Bool-cases, Option,
  none, some, List, [], ◌∷◌, map, All, ◌||◌, arith,
}
use millionws.Base.Int.{ℤ, pos, negsuc, ltb_ℤ, eqb_ℤ, ◌≤ℤ◌}
use millionws.Base.{All-append}
use millionws.Base.Text.{Text, is_empty, split_at}
use millionws.Server.Text.{trim, parse_int}
use millionws.Server.Ports.{
  Failure, bad_number, validate_max_load, cut_at_dash, count_from, is_out_of_range, range_of,
  check_range, with_start, parse_cut, parse_item, followed_by, parse_items, parse_ports, is_in,
  unseen, join_host_port, listen_addrs, addresses_or_exit,
}

-- A port that an item may name.
abbrev pub IsPort : ℕ → Type 0
IsPort p = (1 ≤ p) × (p ≤ 65_535)

abbrev pub Distinct : List ℤ → Type 0
Distinct [] = Unit
Distinct (p ∷ ps) = (is_in p ps ≡ false) × Distinct ps

count_from-IsPort : (start n : ℕ) → 1 ≤ start → start + n ≤ 65_536 → All IsPort (count_from start n)
unfolding count_from
count_from-IsPort start zero h k = tt
count_from-IsPort start (suc n) h k =
    ((h, omega arith), count_from-IsPort (suc start) n (omega arith) (omega arith))

range_of-IsPort : (start hi : ℤ) → is_out_of_range start hi ≡ false → All IsPort (range_of start hi)
range_of-IsPort (pos start) (pos hi) h =
    count_from-IsPort start (suc hi - start) (ground arith) (ground arith)
range_of-IsPort (pos start) (negsuc hi) h = tt
range_of-IsPort (negsuc start) (pos hi) h = tt
range_of-IsPort (negsuc start) (negsuc hi) h = tt

-- What is read has ports alone.
abbrev Reads : Failure ⊎ List ℕ → Type 0
Reads (inl e) = Unit
Reads (inr ports) = All IsPort ports

check_range-Reads : (s item : Text) (start hi : ℤ) → Reads (check_range s item start hi)
check_range-Reads s item start hi = elim (Bool-cases (is_out_of_range start hi)) [
  | inl e ↦ rw (check_range, e) tt
  | inr e ↦ rw (check_range, e) (range_of-IsPort start hi e)
]

with_start-Reads : (s item lo : Text) (hi : Option ℤ) → Reads (with_start s item lo hi)
with_start-Reads s item lo hi =
    elim (parse_int lo)
      as (λ o. Reads (elim o [
        | none ↦ inl (bad_number s lo)
        | some start ↦ check_range s item start (elim hi [ none ↦ start | some n ↦ n ])
      ])) [
        | none ↦ tt
        | some start ↦ check_range-Reads s item start (elim hi [ none ↦ start | some n ↦ n ])
      ]

parse_cut-Reads : (s item : Text) (cut : Text × Option Text) → Reads (parse_cut s item cut)
parse_cut-Reads s item (lo, none) = with_start-Reads s item lo none
parse_cut-Reads s item (lo, some part) =
    elim (parse_int part)
      as (λ o.
        Reads
          (elim o [ none ↦ inl (bad_number s part) | some hi ↦ with_start s item lo (some hi) ])) [
            | none ↦ tt
            | some hi ↦ with_start-Reads s item lo (some hi)
          ]

followed_by-Reads :
    (first rest : Failure ⊎ List ℕ) → Reads first → Reads rest → Reads (followed_by first rest)
followed_by-Reads (inl e) rest h k = tt
followed_by-Reads (inr ports) (inl e) h k = tt
followed_by-Reads (inr ports) (inr more) h k = All-append IsPort ports more h k

parse_items-Reads : (s : Text) (parts : List Text) → Reads (parse_items s parts)
unfolding parse_items parse_item
parse_items-Reads s [] = tt
parse_items-Reads s (part ∷ parts) = elim (Bool-cases (is_empty (trim part))) [
  | inl e ↦ rw e (parse_items-Reads s parts)
  | inr e ↦ rw e (
      followed_by-Reads (parse_item s (trim part)) (parse_items s parts)
        (parse_cut-Reads s (trim part) (cut_at_dash (trim part))) (parse_items-Reads s parts))
]

eqb_ℤ-sound : (a b : ℤ) → eqb_ℤ a b ≡ true → a ≡ b
eqb_ℤ-sound a b h = ground arith

unseen-seen : (p : ℤ) (seen ps : List ℤ) → is_in p seen ≡ true → is_in p (unseen seen ps) ≡ false
unfolding unseen
unseen-seen p seen [] h = refl
unseen-seen p seen (q ∷ ps) h =
    ground (arith, eqb_ℤ-sound p q, unseen-seen p seen ps h, unseen-seen p (q ∷ seen) ps)

unseen-Distinct : (seen ps : List ℤ) → Distinct (unseen seen ps)
unfolding unseen
unseen-Distinct seen [] = tt
unseen-Distinct seen (q ∷ ps) = elim (Bool-cases (is_in q seen)) [
  | inl e ↦ rw e (unseen-Distinct seen ps)
  | inr e ↦ rw e (unseen-seen q (q ∷ seen) ps (ground arith), unseen-Distinct (q ∷ seen) ps)
]

unseen-is_in :
    (p : ℤ) (seen ps : List ℤ)
    → (is_in p seen || is_in p (unseen seen ps)) ≡ (is_in p seen || is_in p ps)
unfolding unseen
unseen-is_in p seen [] = refl
unseen-is_in p seen (q ∷ ps) =
    ground (arith, eqb_ℤ-sound p q, unseen-is_in p seen ps, unseen-is_in p (q ∷ seen) ps)

-- What the engine is given: `addrs`, of the main port and the ports of `-ports`.
pub record Listens (cap : ℤ) (host : Text) (port : ℤ) (extra : Text) (addrs : List Text)
    : Type 0 where
  at_least_one : pos 1 ≤ℤ cap
  ports : List ℕ
  parsed : parse_ports extra ≡ inr ports
  in_range : All IsPort ports
  opened : List ℤ
  addresses : addrs ≡ map (join_host_port host) (port ∷ opened)
  no_repeats : Distinct (port ∷ opened)
  same : (p : ℤ) → is_in p (port ∷ opened) ≡ is_in p (port ∷ map pos ports)

read_ports : (extra : Text) {ports : List ℕ} → parse_ports extra ≡ inr ports → All IsPort ports
unfolding parse_ports
read_ports extra {ports} h =
    let valid : Reads (parse_ports extra) = parse_items-Reads extra (split_at b',' extra) in
    subst Reads h valid

opened_from : ℤ → List ℕ → List ℤ
opened_from port ports = unseen (port ∷ []) (map pos ports)

listens :
    (cap : ℤ) (host : Text) (port : ℤ) (extra : Text) (ports : List ℕ)
    → pos 1 ≤ℤ cap
    → parse_ports extra ≡ inr ports
    → Listens cap host port extra (map (join_host_port host) (port ∷ opened_from port ports))
unfolding opened_from
listens cap host port extra ports h e = record {
  at_least_one = h;
  ports = ports;
  parsed = e;
  in_range = read_ports extra e;
  opened = unseen (port ∷ []) (map pos ports);
  addresses = refl;
  no_repeats = (
    unseen-seen port (port ∷ []) (map pos ports) (ground arith),
    unseen-Distinct (port ∷ []) (map pos ports),
  );
  same = λ p. ground (arith, unseen-is_in p (port ∷ []) (map pos ports));
}

listen_addrs-Listens :
    (cap : ℤ) (host : Text) (port : ℤ) (extra : Text) {addrs : List Text}
    → pos 1 ≤ℤ cap
    → listen_addrs host port extra ≡ inr addrs
    → Listens cap host port extra addrs
unfolding listen_addrs opened_from unseen
listen_addrs-Listens cap host port extra {addrs} h e = read_to (parse_ports extra) refl e
  where
    read_to :
        (o : Failure ⊎ List ℕ)
        → parse_ports extra ≡ o
        → (elim o [
          | inl e ↦ inl e
          | inr more ↦ inr (map (join_host_port host) (unseen [] (port ∷ map pos more)))
        ])
          ≡ inr addrs
        → Listens cap host port extra addrs
    read_to (inl f) r e = absurd (cc)
    read_to (inr ports) r e =
        subst (Listens cap host port extra) (cc) (listens cap host port extra ports h r)

-- Where the program goes on to start its engine, the limit of connections is at least 1 and `-ports`
-- was read; every port that it names is one from 1 to 65535; and the addresses are those of the main
-- port and of ports of `-ports`, the main port first, with no port missing, none that was not asked
-- for and none twice.
pub addresses_or_exit-Listens :
    (cap : ℤ) (host : Text) (port : ℤ) (extra : Text) {addrs : List Text}
    → addresses_or_exit cap host port extra ≡ inr addrs
    → Listens cap host port extra addrs
unfolding addresses_or_exit validate_max_load
addresses_or_exit-Listens cap host port extra h = elim (Bool-cases (ltb_ℤ cap (pos 1))) [
  | inl e ↦ absurd (exits (rw (addresses_or_exit, validate_max_load, e) at h))
  | inr e ↦
      listen_addrs-Listens cap host port extra (ground arith)
        (rw (addresses_or_exit, validate_max_load, e) at h)
]
  where
    exits : {e : Failure} {addrs : List Text} → inl e ≡ inr addrs → ⊥
    exits e = absurd (cc)
