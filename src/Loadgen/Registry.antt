-- ===== src/Loadgen/Registry.antt =====
-- cmd/loadgen/registry.go: the open connections in order, with the slot of each, and the connections
-- that were closed before they were added. Each method holds the mutex from its first line to its
-- end, so one call is one step. A panic of the source is `none`.
pub mod Slots
pub mod Valid
pub mod Lifecycle
pub mod Series
pub mod Rounds
use millionws.Base.{
  ℕ, zero, suc, ◌+◌, ◌-◌, ◌%◌, ◌≡◌, ◌↔◌, Bool, true, false, Option, none, some, List, [], ◌∷◌, ◌++◌,
  length, get_elem?, if◌then◌else◌, ltb, ◌==◌,
}

-- The type parameter `C comparable`.
pub record Comparable : Type 1 where
  pub C : Type 0
  pub eq : C → C → Bool
  pub eq_iff : (a b : C) → (eq a b ≡ true) ↔ (a ≡ b)

module _ {A : Type 0} where
  -- `xs[i] = x`
  unfoldable pub set_elem? : List A → ℕ → A → Option (List A)
  set_elem? [] i x = none
  set_elem? (y ∷ ys) zero x = some (x ∷ ys)
  set_elem? (y ∷ ys) (suc i) x = elim (set_elem? ys i x) [ none ↦ none | some zs ↦ some (y ∷ zs) ]

  -- `xs[:n]`, for n up to the length.
  unfoldable pub take : ℕ → List A → List A
  take zero xs = []
  take (suc n) [] = []
  take (suc n) (x ∷ xs) = x ∷ take n xs

module _ (c : Comparable) where
  pub record Registry : Type 0 where
    pub conns : List c.C
    pub slot : c.C → Option ℕ
    pub closed : c.C → Bool

  abbrev pub new_registry : Registry
  new_registry = record { conns = []; slot = λ x. none; closed = λ x. false }

  -- `m[x] = i` and `delete(m, x)`
  abbrev pub put : {V : Type 0} → c.C → V → (c.C → V) → c.C → V
  put x v m y = if c.eq y x then v else m y

  unfoldable pub add : c.C → Registry → Registry × Bool
  add x r =
      if r.closed x then (record r { closed = put x false r.closed }, false) else elim (r.slot x) [
        | some i ↦ (r, false)
        | none ↦ (
          record r { conns = r.conns ++ (x ∷ []); slot = put x (some (length r.conns)) r.slot },
          true,
        )
      ]

  -- The part of `remove` for a connection that is stored in the slot `i`.
  unfoldable pub take_out : c.C → ℕ → Registry → Option Registry
  unfolding set_elem? take
  take_out x i r =
      let last = length r.conns - 1 in
      elim (get_elem? r.conns last) [
        | none ↦ none
        | some moved ↦ elim (set_elem? r.conns i moved) [
          | none ↦ none
          | some conns ↦
              some (record r {
                conns = take last conns;
                slot = put x none (put moved (some i) r.slot);
              })
        ]
      ]

  unfoldable pub remove : c.C → Registry → Option (Registry × Bool)
  unfolding take_out
  remove x r = elim (r.slot x) [
    | none ↦ some (record r { closed = put x true r.closed }, false)
    | some i ↦ elim (take_out x i r) [ none ↦ none | some r' ↦ some (r', true) ]
  ]

  abbrev pub len : Registry → ℕ
  len r = length r.conns

  -- The loop of `batch`: `k` connections from the position `at` on, counted around the list.
  unfoldable pub batch_from : List c.C → ℕ → ℕ → Option (List c.C)
  batch_from conns at zero = some []
  batch_from conns at (suc k) = elim (get_elem? conns (at % length conns)) [
    | none ↦ none
    | some x ↦ elim (batch_from conns (suc at) k) [ none ↦ none | some xs ↦ some (x ∷ xs) ]
  ]

  -- `batch`, of a cursor and a number that are not negative. What `dst` held before is dropped.
  unfoldable pub batch : Registry → ℕ → ℕ → Option (List c.C × ℕ)
  unfolding batch_from
  batch r cursor n =
      let total = length r.conns in
      let k = if ltb total n then total else n in
      if total == 0 then some ([], 0) else elim (batch_from r.conns cursor k) [
        | none ↦ none
        | some xs ↦ some (xs, (cursor + k) % total)
      ]
