-- ===== src/Server/Requests/Series.antt =====
-- What a series of accesses comes to, one by one.
use millionws.Base.{
  ℕ, suc, zero, ◌≤◌, ◌≡◌, subst, Option, Option-cases, some-injective, none, some, List, [], ◌∷◌,
  inl, inr, arith,
}
use millionws.Base.Text.{Text}
use millionws.Server.Memory.{Shares}
use millionws.Server.Requests.{Event, State, next_of, act, serve}

-- What holds behind an access that could take place.
pub kept : (P : State → Type 0) (k : ℕ) {s t : State} → next_of k s ≡ some t → (1 ≤ k → P s) → P t
kept P zero h holds = absurd (cc)
kept P (suc k) {s} {t} h holds = subst P (some-injective s t h) (holds (omega arith))

pub serve-nil :
    (shares : Shares) (max_file : Option Text) (s : State) {t : State}
    → serve shares max_file [] s ≡ some t
    → s ≡ t
unfolding serve
serve-nil shares max_file s {t} h = some-injective s t h

pub serve-cons :
    (shares : Shares) (max_file : Option Text) (e : Event) (es : List Event) (s : State) {t : State}
    → serve shares max_file (e ∷ es) s ≡ some t
    → (u : State) × (act shares max_file e s ≡ some u) × (serve shares max_file es u ≡ some t)
unfolding serve
serve-cons shares max_file e es s {t} h = elim (Option-cases (act shares max_file e s)) [
  | inl stuck ↦ absurd (nothing (rw (serve, stuck) at h))
  | inr (u, went) ↦ (u, went, rw (serve, went) at h)
]
  where
    nothing : none ≡ some t → ⊥
    nothing h = cc
