-- ===== src/Server/Requests/Guarded.antt =====
-- The guard and the handler together: who is turned away.
use millionws.Base.{
  ℕ, ◌+◌, ◌-◌, ◌≤◌, ◌≡◌, refl, sym, subst, ap, ◌∙◌, Bool, true, false, Option, some-injective, some,
  List, [], ◌∷◌, All, arith,
}
use millionws.Base.{All-parts}
use millionws.Base.Text.{Text}
use millionws.Server.Memory.{read_cgroup_int, Shares, Admission, guard_memory}
use millionws.Server.Memory.Guard.{
  IsNotBelow, Exceeds, guard_memory-Exceeds, guard_memory-append, guard_memory-nil,
  guard_memory-stays,
}
use millionws.Server.Requests.{
  handle, call_back, Event, in_handler, in_callback, tick, request, reject, refuse, accept,
  count_error, count_up, count_total, close, count_down, count_end, State, at_start, admit, act,
  serve, is_request, requests, reading_of, readings,
}
use millionws.Server.Requests.Series.{kept, serve-nil, serve-cons}

module _ (shares : Shares) (max_file : Option Text) where
  -- `overloaded` is as before.
  abbrev Behind : State → State → Type 0
  Behind s t = t.admission ≡ guard_memory shares max_file [] s.admission

  unread : (s : State) → Behind s s
  unread s = sym (guard_memory-nil shares max_file s.admission)

  admit-Behind : (b : Bool) (s : State) → Behind s (admit b s)
  admit-Behind true s = unread s
  admit-Behind false s = unread s

  -- `overloaded` is what the readings alone make of it.
  act-admission :
      (e : Event) (s : State) {t : State}
      → act shares max_file e s ≡ some t
      → t.admission ≡ guard_memory shares max_file (reading_of e) s.admission
  unfolding act handle call_back
  act-admission (tick file) s h = sym (ap (λ (t : State). t.admission) (some-injective _ _ h))
  act-admission (in_handler request) s h =
      kept (Behind s) 1 h (λ left. admit-Behind s.admission.overloaded s)
  act-admission (in_handler reject) s h = kept (Behind s) s.turning h (λ left. unread s)
  act-admission (in_handler refuse) s h = kept (Behind s) s.upgrading h (λ left. unread s)
  act-admission (in_handler accept) s h = kept (Behind s) s.upgrading h (λ left. unread s)
  act-admission (in_handler count_error) s h = kept (Behind s) s.failing h (λ left. unread s)
  act-admission (in_callback count_up) s h = kept (Behind s) s.opening h (λ left. unread s)
  act-admission (in_callback count_total) s h = kept (Behind s) s.opened h (λ left. unread s)
  act-admission (in_callback close) s h =
      kept (Behind s) (s.accepted - s.closed) h (λ left. unread s)
  act-admission (in_callback count_down) s h = kept (Behind s) s.closing h (λ left. unread s)
  act-admission (in_callback count_end) s h = kept (Behind s) s.ending h (λ left. unread s)

  serve-admission :
      (es : List Event) (s : State) {t : State}
      → serve shares max_file es s ≡ some t
      → t.admission ≡ guard_memory shares max_file (readings es) s.admission
  serve-admission [] s h = subst (Behind s) (serve-nil shares max_file s h) (unread s)
  serve-admission (e ∷ es) s h =
      let (u, went, rest) = serve-cons shares max_file e es s h in
      serve-admission es u rest
      ∙ ap (guard_memory shares max_file (readings es)) (act-admission e s went)
      ∙ sym (guard_memory-append shares max_file (reading_of e) (readings es) s.admission)

  -- Behind `n` requests from `s`, each of them is turned away, and no more than those that were in
  -- `Upgrade` come in.
  abbrev TurnsAway : ℕ → State → State → Type 0
  TurnsAway n s t =
      (t.turning + t.rejected ≡ n + (s.turning + s.rejected))
      × (t.accepted + t.upgrading ≤ s.accepted + s.upgrading)

  act-TurnsAway :
      (e : Event) (s : State) {t : State}
      → s.admission.overloaded ≡ true
      → act shares max_file e s ≡ some t
      → TurnsAway (is_request e) s t
  unfolding act handle call_back
  act-TurnsAway (tick file) s on h = kept (TurnsAway 0 s) 1 h (λ left. omega arith)
  act-TurnsAway (in_handler request) s on h = kept (TurnsAway 1 s) 1 h (λ left. rw on (omega arith))
  act-TurnsAway (in_handler reject) s on h = kept (TurnsAway 0 s) s.turning h (λ left. omega arith)
  act-TurnsAway (in_handler refuse) s on h =
      kept (TurnsAway 0 s) s.upgrading h (λ left. omega arith)
  act-TurnsAway (in_handler accept) s on h =
      kept (TurnsAway 0 s) s.upgrading h (λ left. omega arith)
  act-TurnsAway (in_handler count_error) s on h =
      kept (TurnsAway 0 s) s.failing h (λ left. omega arith)
  act-TurnsAway (in_callback count_up) s on h =
      kept (TurnsAway 0 s) s.opening h (λ left. omega arith)
  act-TurnsAway (in_callback count_total) s on h =
      kept (TurnsAway 0 s) s.opened h (λ left. omega arith)
  act-TurnsAway (in_callback close) s on h =
      kept (TurnsAway 0 s) (s.accepted - s.closed) h (λ left. omega arith)
  act-TurnsAway (in_callback count_down) s on h =
      kept (TurnsAway 0 s) s.closing h (λ left. omega arith)
  act-TurnsAway (in_callback count_end) s on h =
      kept (TurnsAway 0 s) s.ending h (λ left. omega arith)

  module _ {limit : ℕ} (limited : read_cgroup_int max_file ≡ some limit) where
    serve-TurnsAway :
        (es : List Event) (s : State) {t : State}
        → s.admission.overloaded ≡ true
        → All (IsNotBelow (shares.scaled limit 85)) (readings es)
        → serve shares max_file es s ≡ some t
        → TurnsAway (requests es) s t
    serve-TurnsAway [] s on above h =
        subst (TurnsAway 0 s) (serve-nil shares max_file s h) (omega arith)
    serve-TurnsAway (e ∷ es) s on above h =
        let (u, went, rest) = serve-cons shares max_file e es s h in
        let (first, behind) =
          All-parts (IsNotBelow (shares.scaled limit 85)) (reading_of e) (readings es) above in
        let stays : u.admission.overloaded ≡ true =
          ap (λ (a : Admission). a.overloaded) (act-admission e s went)
          ∙ guard_memory-stays shares max_file (reading_of e) s.admission limited on first in
        omega (arith, act-TurnsAway e s on went, serve-TurnsAway es u stays behind rest)

    -- Once a reading was above 90% of the limit and none behind it below 85%, and for as long as none is
    -- read below 85%: each request that comes is turned away, and the connections that come in are at most
    -- those of requests that were in `Upgrade` already.
    pub serve-turns_away :
        (before after : List Event) {s t : State}
        → serve shares max_file before at_start ≡ some s
        → serve shares max_file after s ≡ some t
        → Exceeds (shares.scaled limit 90) (shares.scaled limit 85) (readings before)
        → All (IsNotBelow (shares.scaled limit 85)) (readings after)
        → (t.turning + t.rejected ≡ requests after + (s.turning + s.rejected))
          × (t.accepted + t.upgrading ≤ s.accepted + s.upgrading)
    serve-turns_away before after {s} h k exceeds above =
        let on : s.admission.overloaded ≡ true =
          ap (λ (a : Admission). a.overloaded) (serve-admission before at_start h)
          ∙ (guard_memory-Exceeds shares max_file (readings before) at_start.admission limited
                refl).1
              exceeds in
        serve-TurnsAway after s on above k
