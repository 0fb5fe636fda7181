-- ===== src/Server/Requests/Counts.antt =====
-- What the server's counters say of its requests and connections, in every interleaving.
use millionws.Base.{
  ℕ, ◌+◌, ◌-◌, ◌≤◌, ◌≡◌, subst, Bool, true, false, Option, some, List, [], ◌∷◌, arith,
}
use millionws.Base.Int.{from_parts, pos, pos_part, neg_part, ◌+ℤ◌, +ℤ_parts, -ℤ_parts}
use millionws.Base.Text.{Text}
use millionws.Server.Memory.{Shares}
use millionws.Server.Requests.Series.{kept, serve-nil, serve-cons}
use millionws.Server.Requests.{
  handle, call_back, Event, in_handler, in_callback, tick, request, reject, refuse, accept,
  count_error, count_up, count_total, close, count_down, count_end, State, at_start, admit, act,
  serve, is_request, requests,
}

-- The state behind `n` requests.
pub record Accounts (n : ℕ) (s : State) : Type 0 where
  pub answered : n ≡ s.turning + s.rejected + s.upgrading + s.failing + s.errors + s.accepted
  pub totals : s.accepted ≡ s.opening + s.opened + s.total
  pub once : s.closed ≤ s.accepted
  pub ends : s.closed ≡ s.closing + s.ending + s.disconnections
  pub balance :
      pos_part s.active + s.opening + s.closed ≡ s.accepted + s.closing + neg_part s.active

admit-Accounts : (b : Bool) (n : ℕ) (s : State) → Accounts n s → Accounts (1 + n) (admit b s)
admit-Accounts true n s f = record {
  answered = omega arith;
  totals = f.totals;
  once = f.once;
  ends = f.ends;
  balance = f.balance;
}
admit-Accounts false n s f = record {
  answered = omega arith;
  totals = f.totals;
  once = f.once;
  ends = f.ends;
  balance = f.balance;
}

act-Accounts :
    (shares : Shares) (max_file : Option Text) (e : Event) (n : ℕ) (s : State) {t : State}
    → act shares max_file e s ≡ some t
    → Accounts n s
    → Accounts (is_request e + n) t
unfolding act handle call_back
act-Accounts shares max_file (tick file) n s h f = kept (Accounts (0 + n)) 1 h (λ left. record {
  answered = omega arith;
  totals = f.totals;
  once = f.once;
  ends = f.ends;
  balance = f.balance;
})
act-Accounts shares max_file (in_handler request) n s h f =
    kept (Accounts (1 + n)) 1 h (λ left. admit-Accounts s.admission.overloaded n s f)
act-Accounts shares max_file (in_handler reject) n s h f =
    kept (Accounts (0 + n)) s.turning h (λ left. record {
      answered = omega arith;
      totals = f.totals;
      once = f.once;
      ends = f.ends;
      balance = f.balance;
    })
act-Accounts shares max_file (in_handler refuse) n s h f =
    kept (Accounts (0 + n)) s.upgrading h (λ left. record {
      answered = omega arith;
      totals = f.totals;
      once = f.once;
      ends = f.ends;
      balance = f.balance;
    })
act-Accounts shares max_file (in_handler accept) n s h f =
    kept (Accounts (0 + n)) s.upgrading h (λ left. record {
      answered = omega arith;
      totals = omega arith;
      once = omega arith;
      ends = f.ends;
      balance = omega arith;
    })
act-Accounts shares max_file (in_handler count_error) n s h f =
    kept (Accounts (0 + n)) s.failing h (λ left. record {
      answered = omega arith;
      totals = f.totals;
      once = f.once;
      ends = f.ends;
      balance = f.balance;
    })
act-Accounts shares max_file (in_callback count_up) n s h f =
    kept (Accounts (0 + n)) s.opening h (λ left. record {
      answered = omega arith;
      totals = omega arith;
      once = f.once;
      ends = f.ends;
      balance = omega (arith, +ℤ_parts s.active (pos 1));
    })
act-Accounts shares max_file (in_callback count_total) n s h f =
    kept (Accounts (0 + n)) s.opened h (λ left. record {
      answered = omega arith;
      totals = omega arith;
      once = f.once;
      ends = f.ends;
      balance = f.balance;
    })
act-Accounts shares max_file (in_callback close) n s h f =
    kept (Accounts (0 + n)) (s.accepted - s.closed) h (λ left. record {
      answered = omega arith;
      totals = f.totals;
      once = omega arith;
      ends = omega arith;
      balance = omega arith;
    })
act-Accounts shares max_file (in_callback count_down) n s h f =
    kept (Accounts (0 + n)) s.closing h (λ left. record {
      answered = omega arith;
      totals = f.totals;
      once = f.once;
      ends = omega arith;
      balance = omega (arith, -ℤ_parts s.active (pos 1));
    })
act-Accounts shares max_file (in_callback count_end) n s h f =
    kept (Accounts (0 + n)) s.ending h (λ left. record {
      answered = omega arith;
      totals = f.totals;
      once = f.once;
      ends = omega arith;
      balance = f.balance;
    })

serve-Accounts :
    (shares : Shares) (max_file : Option Text) (es : List Event) (n : ℕ) (s : State) {t : State}
    → serve shares max_file es s ≡ some t
    → Accounts n s
    → Accounts (n + requests es) t
serve-Accounts shares max_file [] n s {t} h f =
    let same : n ≡ n + 0 = omega arith in
    subst (λ k. Accounts k t) same (subst (Accounts n) (serve-nil shares max_file s h) f)
serve-Accounts shares max_file (e ∷ es) n s {t} h f =
    let (u, went, rest) = serve-cons shares max_file e es s h in
    let same : is_request e + n + requests es ≡ n + requests (e ∷ es) = omega arith in
    subst (λ k. Accounts k t) same
      (serve-Accounts shares max_file es (is_request e + n) u rest
        (act-Accounts shares max_file e n s went f))

at_start-Accounts : Accounts 0 at_start
at_start-Accounts = record {
  answered = omega arith;
  totals = omega arith;
  once = omega arith;
  ends = omega arith;
  balance = omega arith;
}

-- Whatever the order of the accesses, from the start: each request is counted as rejected, as failed or
-- as a connection, but for those under way; `activeConnections` with the connections that have ended is
-- the number of those that were opened, but for calls of `OnOpen` and `OnClose` under way; and no more
-- have ended than were opened.
pub serve-counts :
    (shares : Shares) (max_file : Option Text) (es : List Event) {s : State}
    → serve shares max_file es at_start ≡ some s
    → (requests es
        ≡ s.rejected
          + s.errors
          + s.total
          + (s.turning + s.upgrading + s.failing + s.opening + s.opened))
      × (s.active +ℤ pos (s.disconnections + s.ending) ≡ pos (s.total + s.opened))
      × (s.disconnections + s.ending + s.closing ≤ s.total + s.opened + s.opening)
serve-counts shares max_file es {s} h =
    let f = serve-Accounts shares max_file es 0 at_start h at_start-Accounts in
    (
      omega arith,
      from_parts s.active (s.disconnections + s.ending) (s.total + s.opened) (omega arith),
      omega arith,
    )
