-- ===== src/Server/Memory/Limit.antt =====
-- The limit that memory.go sets for the Go runtime.
use millionws.Base.{
  ℕ, ◌+◌, ◌-◌, ◌*◌, ◌/◌, ◌%◌, ◌^◌, ◌≤◌, ◌<◌, ◌≡◌, refl, ◌∙◌, inl, inr, Bool, false, Bool-cases,
  ◌||◌, last?, Option, Option-cases, none, some, List, [], ◌∷◌, ◌++◌, All, ltb, arith,
  if◌then◌else◌,
}
use millionws.Base.Int.{ℤ, pos, negsuc, ◌-ℤ◌, negate, ltb_ℤ}
use millionws.Base.Text.{Text}
use millionws.Server.Text.{trim, parse_int}
use millionws.Server.Text.Decimal.{parse_int-bound}
use millionws.Server.Memory.{
  positive, read_cgroup_int, Shares, int64, signed_64, max_ℤ, wanted_limit, set_limit, Reading,
  limit_tick, limit_ticks, manage_memory_limit,
}

-- What remains under the target, and the floor where that is more.
abbrev pub remainder : ℕ → ℕ → ℕ → ℕ → ℕ
remainder target floor current mapped =
    let left = target - (current - mapped) in if ltb left floor then floor else left

pub int64-sub : (a b : ℕ) → a < 2 ^ 63 → b < 2 ^ 63 → int64 (pos a -ℤ pos b) ≡ pos a -ℤ pos b
unfolding int64 ◌-ℤ◌
int64-sub a b ha hb = ground arith

mapped_bytes :
    (total released : ℕ)
    → released ≤ total
    → total < 2 ^ 63
    → signed_64 ((total + (2 ^ 64 - released)) % 2 ^ 64) ≡ pos (total - released)
mapped_bytes total released h k = ground arith

max_sub-zero : (a b : ℕ) → max_ℤ (pos a -ℤ pos b) (pos 0) ≡ pos (a - b)
unfolding ◌-ℤ◌
max_sub-zero a b = ground arith

max_sub-floor :
    (a b floor : ℕ)
    → max_ℤ (pos a -ℤ pos b) (pos floor) ≡ pos (if ltb (a - b) floor then floor else a - b)
unfolding ◌-ℤ◌
max_sub-floor a b floor = ground arith

wanted_limit-exact :
    (target floor current total released : ℕ)
    → target < 2 ^ 63
    → current < 2 ^ 63
    → released ≤ total
    → total < 2 ^ 63
    → wanted_limit target floor current total released
      ≡ pos (remainder target floor current (total - released))
unfolding wanted_limit
wanted_limit-exact target floor current total released ht hc hr hm =
    rw
      (
        wanted_limit,
        mapped_bytes total released hr hm,
        int64-sub current (total - released) hc (omega arith),
        max_sub-zero current (total - released),
        int64-sub target (current - (total - released)) ht (omega arith),
      )
      (max_sub-floor target (current - (total - released)) floor)

-- The limit that is set is within a hundredth of the wanted one.
abbrev pub IsNear : ℕ → ℕ → Type 0
IsNear wanted set = (100 * wanted ≤ 101 * set) × (99 * set ≤ 100 * wanted)

-- `last` is more than a hundredth of it away from the limit.
abbrev is_far : ℕ → ℕ → Bool
is_far limit last = ltb (last / 100) (limit - last) || ltb (last / 100) (last - limit)

negate-sub : (a b : ℕ) → negate (pos a -ℤ pos b) ≡ pos b -ℤ pos a
unfolding negate ◌-ℤ◌
negate-sub a b = ground arith

far_of_sub :
    (a b h : ℕ)
    → (ltb_ℤ (pos h) (pos a -ℤ pos b) || ltb_ℤ (pos h) (pos b -ℤ pos a))
      ≡ (ltb h (a - b) || ltb h (b - a))
unfolding ◌-ℤ◌
far_of_sub a b h = ground arith

set_limit-exact :
    (limit last : ℕ)
    → limit < 2 ^ 63
    → last < 2 ^ 63
    → set_limit (pos limit) (pos last)
      ≡ (if is_far limit last then (pos limit, some (pos limit)) else (pos last, none))
unfolding set_limit
set_limit-exact limit last hl hm =
    rw
      (
        set_limit,
        int64-sub limit last hl hm,
        negate-sub limit last,
        int64-sub last limit hm hl,
        far_of_sub limit last (last / 100),
      )
      refl

not_far-IsNear : (limit last : ℕ) → is_far limit last ≡ false → IsNear limit last
not_far-IsNear limit last h = ground arith

-- What was set last, or 0.
abbrev pub last_call : List ℤ → ℤ
last_call calls = elim (last? calls) [ none ↦ pos 0 | some l ↦ l ]

last_call-last : (calls : List ℤ) (l : ℤ) → last_call (calls ++ (l ∷ [])) ≡ l
last_call-last [] l = refl
last_call-last (k ∷ []) l = refl
last_call-last (k ∷ m ∷ calls) l = last_call-last (m ∷ calls) l

positive-bound : (o : Option ℤ) {n : ℕ} → positive o ≡ some n → o ≡ some (pos n)
positive-bound none h = cc
positive-bound (some (pos m)) h = ground arith
positive-bound (some (negsuc m)) h = cc

read-bound : (file : Option Text) {n : ℕ} → read_cgroup_int file ≡ some n → n < 2 ^ 63
unfolding read_cgroup_int
read-bound none h = cc
read-bound (some raw) h = parse_int-bound (trim raw) (positive-bound (parse_int (trim raw)) h)

-- The runtime has released no more bytes than it ever held, and holds fewer than 2 ** 63.
abbrev pub IsSane : Reading → Type 0
IsSane x = (x.released ≤ x.total) × (x.total < 2 ^ 63)

-- `last` is an int64 that is not negative, and what was set last.
abbrev pub IsCurrent : ℤ × List ℤ → Type 0
IsCurrent (last, calls) = (l : ℕ) × (last ≡ pos l) × (l < 2 ^ 63) × (last_call calls ≡ last)

module _ (target floor : ℕ) (target_fits : target < 2 ^ 63) (floor_fits : floor < 2 ^ 63) where
  -- What a tick comes to, where it reads the memory that is in use.
  abbrev wanted : Reading → ℕ → ℕ
  wanted x current = remainder target floor current (x.total - x.released)

  limit_tick-none :
      (x : Reading) (s : ℤ × List ℤ)
      → read_cgroup_int x.current_file ≡ none
      → limit_tick target floor x s ≡ s
  unfolding limit_tick
  limit_tick-none x s e = rw (limit_tick, e) refl

  limit_tick-IsNear :
      (x : Reading) (s : ℤ × List ℤ) {current : ℕ}
      → read_cgroup_int x.current_file ≡ some current
      → IsSane x
      → IsCurrent s
      → (new : ℕ) × ((limit_tick target floor x s).0 ≡ pos new)
        × IsNear (wanted x current) new
        × IsCurrent (limit_tick target floor x s)
  unfolding limit_tick
  limit_tick-IsNear x (last, calls) {current} e sane (l, is_l, fits, called) =
      let exact =
        wanted_limit-exact target floor current x.total x.released target_fits
          (read-bound x.current_file e) sane.0 sane.1 in
      let small : wanted x current < 2 ^ 63 = ground arith in
      let set = set_limit-exact (wanted x current) l small fits in
      elim (Bool-cases (is_far (wanted x current) l)) [
        | inl far ↦
            rw (limit_tick, e, exact, is_l, set, far)
              (
                wanted x current,
                refl,
                (omega arith, omega arith),
                (wanted x current, refl, small, last_call-last calls (pos (wanted x current))),
              )
        | inr near ↦
            rw (limit_tick, e, exact, is_l, set, near)
              (l, refl, not_far-IsNear (wanted x current) l near, (l, refl, fits, called ∙ is_l))
      ]

  limit_ticks-IsCurrent :
      (xs : List Reading) (s : ℤ × List ℤ)
      → All IsSane xs
      → IsCurrent s
      → IsCurrent (limit_ticks target floor xs s)
  unfolding limit_ticks
  limit_ticks-IsCurrent [] s sane set = set
  limit_ticks-IsCurrent (x ∷ xs) s sane set = elim (Option-cases (read_cgroup_int x.current_file)) [
    | inl e ↦ rw (limit_ticks, limit_tick-none x s e) (limit_ticks-IsCurrent xs s sane.1 set)
    | inr (current, e) ↦
        let (new, is_new, near, set') = limit_tick-IsNear x s e sane.0 set in
        limit_ticks-IsCurrent xs (limit_tick target floor x s) sane.1 set'
  ]

  limit_ticks-last :
      (xs : List Reading) (x : Reading) (s : ℤ × List ℤ)
      → limit_ticks target floor (xs ++ (x ∷ [])) s
        ≡ limit_tick target floor x (limit_ticks target floor xs s)
  unfolding limit_ticks
  limit_ticks-last [] x s = refl
  limit_ticks-last (y ∷ xs) x s = limit_ticks-last xs x (limit_tick target floor y s)

-- Without GOMEMLIMIT, and where memory.max holds a limit: behind any ticks and one more that reads the
-- memory in use, as long as the runtime holds fewer than 2 ** 63 bytes: what was set last for the Go
-- runtime, or 0 where nothing was, differs by at most a hundredth of itself from what remains of
-- 88% of the limit beside the memory that is not Go's, or from a twentieth of the limit where
-- that is more.
pub manage_memory_limit-IsNear :
    (shares : Shares) (max_file : Option Text) (xs : List Reading) (x : Reading) {limit current : ℕ}
    → read_cgroup_int max_file ≡ some limit
    → read_cgroup_int x.current_file ≡ some current
    → All IsSane xs
    → IsSane x
    → (set : ℕ) × (last_call (manage_memory_limit shares [] max_file (xs ++ (x ∷ []))).1 ≡ pos set)
      × IsNear (remainder (shares.scaled limit 88) (limit / 20) current (x.total - x.released)) set
unfolding manage_memory_limit
manage_memory_limit-IsNear shares max_file xs x {limit} {current} e d sane here =
    let target = shares.scaled limit 88 in
    let below = read-bound max_file e in
    let target_fits : target < 2 ^ 63 =
      omega (arith, shares.scaled_le limit 88 (omega arith), below) in
    let floor_fits : limit / 20 < 2 ^ 63 = omega (arith, below) in
    let start : ℤ × List ℤ = (pos 0, []) in
    let before = limit_ticks target (limit / 20) xs start in
    let first : IsCurrent start = (0, refl, omega arith, refl) in
    let set =
      limit_ticks-IsCurrent target (limit / 20) target_fits floor_fits xs start sane first in
    let (new, is_new, near, (l, is_l, fits, called)) =
      limit_tick-IsNear target (limit / 20) target_fits floor_fits x before d here set in
    rw
      (
        manage_memory_limit,
        e,
        limit_ticks-last target (limit / 20) target_fits floor_fits xs x start,
      )
      (new, called ∙ is_new, near)
