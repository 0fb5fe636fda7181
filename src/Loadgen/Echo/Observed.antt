-- ===== src/Loadgen/Echo/Observed.antt =====
-- What `OnMessage` observes of the messages of `sendLoop`.
use millionws.Base.{
  ℕ, suc, zero, ◌+◌, ◌-◌, ◌*◌, ◌/◌, ◌%◌, ◌^◌, ◌≤◌, ◌<◌, ◌≡◌, refl, sym, ap, ◌∙◌, some, List, [],
  ◌∷◌, ◌++◌, map, All, length, length-append, arith,
}
use millionws.Base.Int.{ℤ, pos, ◌-ℤ◌}
use millionws.Base.Text.{Text}
use millionws.Base.Text.Integer.{decimal}
use millionws.Base.Text.Integer.Digits.{IsDigits, decimal-IsDigits}
use millionws.Base.Text.Integer.Width.{length-decimal}
use millionws.Record.Number.{Float}
use millionws.Server.Text.Decimal.{parse_int-decimal}
use millionws.Server.Memory.Limit.{int64-sub}
use millionws.Loadgen.Echo.{
  payload_size, spaces, drop, stamp_time, before_space, on_message, seconds, echoes, latencies,
}

-- A time of the clock in nanoseconds, with 19 digits: from September 2001 to April 2262.
abbrev pub IsTime : ℕ → Type 0
IsTime t = (10 ^ 18 ≤ t) × (t < 2 ^ 63)

before_space-digits : (s t : Text) → IsDigits s → before_space (s ++ (b' ' ∷ t)) ≡ s
unfolding before_space
before_space-digits [] t h = refl
before_space-digits (c ∷ s) t h = ground (arith, before_space-digits s t h.1)

drop-front : (s t : Text) → drop (length s) (s ++ t) ≡ t
drop-front [] t = refl
drop-front (c ∷ s) t = drop-front s t

length-time : (t : ℕ) → IsTime t → length (decimal t) ≡ 19
length-time t h = length-decimal 18 t (omega arith) (omega arith)

stamp_time-buffer :
    (t n : ℕ) (front : Text)
    → IsTime t
    → length front ≡ 19
    → stamp_time t (front ++ (b' ' ∷ spaces n)) ≡ decimal t ++ (b' ' ∷ spaces n)
unfolding stamp_time
stamp_time-buffer t n front h w =
    let same : length (decimal t) ≡ length front = length-time t h ∙ sym w in
    ground (arith, same, length-append front (b' ' ∷ spaces n), drop-front front (b' ' ∷ spaces n))

spaces-add : (a b : ℕ) → spaces (a + b) ≡ spaces a ++ spaces b
spaces-add zero b = ap spaces (omega arith)
spaces-add (suc a) b =
    let same : suc a + b ≡ suc (a + b) = omega arith in
    ap spaces same ∙ ap (λ s. b' ' ∷ s) (spaces-add a b)

payload_size-spaces :
    (size : ℤ) → (n : ℕ) × (spaces (payload_size size) ≡ spaces 19 ++ (b' ' ∷ spaces n))
payload_size-spaces size =
    let same : payload_size size ≡ 19 + suc (payload_size size - 20) = ground arith in
    (payload_size size - 20, ap spaces same ∙ spaces-add 19 (suc (payload_size size - 20)))

-- A message that is sent at a time, and whose echo comes a number of seconds and nanoseconds behind it.
pub record Trip : Type 0 where
  pub sent : ℕ
  pub whole : ℕ
  pub nanos : ℕ

abbrev pub received : Trip → ℕ
received trip = trip.sent + (1_000_000_000 * trip.whole + trip.nanos)

abbrev pub IsTrip : Trip → Type 0
IsTrip trip = IsTime trip.sent × (trip.nanos < 1_000_000_000) × (received trip < 2 ^ 63)

abbrev pub times : Trip → ℕ × ℕ
times trip = (trip.sent, received trip)

difference : (sent wait : ℕ) → pos (sent + wait) -ℤ pos sent ≡ pos wait
unfolding ◌-ℤ◌
difference sent wait = ground arith

module _ (f : Float) where
  -- The seconds, with the nanoseconds as a fraction of 10 ** 9.
  abbrev pub elapsed : Trip → f.Carrier
  elapsed trip =
      f.add (f.of_int (pos trip.whole))
        (f.quotient (f.of_int (pos trip.nanos)) (f.of_int (pos (10 ^ 9))))

  seconds-elapsed :
      (trip : Trip)
      → trip.nanos < 1_000_000_000
      → seconds f (pos (1_000_000_000 * trip.whole + trip.nanos)) ≡ elapsed trip
  unfolding seconds
  seconds-elapsed trip h =
      let whole : (1_000_000_000 * trip.whole + trip.nanos) / 1_000_000_000 ≡ trip.whole =
        omega arith in
      let rest : (1_000_000_000 * trip.whole + trip.nanos) % 1_000_000_000 ≡ trip.nanos =
        omega arith in
      λ i.
        f.add (f.of_int (pos (whole i)))
          (f.quotient (f.of_int (pos (rest i))) (f.of_int (pos 1_000_000_000)))

  on_message-time :
      (trip : Trip) (n : ℕ)
      → IsTrip trip
      → on_message f (received trip) (decimal trip.sent ++ (b' ' ∷ spaces n)) ≡ some (elapsed trip)
  unfolding on_message
  on_message-time trip n (h, small, fits) =
      let wait = 1_000_000_000 * trip.whole + trip.nanos in
      rw
        (
          on_message,
          before_space-digits (decimal trip.sent) (spaces n) (decimal-IsDigits trip.sent),
          parse_int-decimal trip.sent h.1,
        )
        (ap (λ d. some (seconds f d))
            (int64-sub (received trip) trip.sent fits h.1 ∙ difference trip.sent wait)
          ∙ ap some (seconds-elapsed trip small))

  echoes-buffer :
      (n : ℕ) (front : Text) (trips : List Trip)
      → length front ≡ 19
      → All IsTrip trips
      → echoes f (front ++ (b' ' ∷ spaces n)) (map times trips)
        ≡ map (λ trip. some (elapsed trip)) trips
  unfolding echoes
  echoes-buffer n front [] w h = refl
  echoes-buffer n front (trip ∷ trips) w (first, h) =
      rw (stamp_time-buffer trip.sent n front first.0 w, on_message-time trip n first)
        (ap (λ l. some (elapsed trip) ∷ l)
          (echoes-buffer n (decimal trip.sent) trips (length-time trip.sent first.0) h))

  -- With a clock of 19 digits, and whatever size `-payload` gives: of each of the messages, which share a
  -- buffer, and whose echo comes a number of seconds and nanoseconds behind the sending, `OnMessage`
  -- observes these seconds and the nanoseconds over 10 ** 9, as floats.
  pub latencies_lem :
      (size : ℤ) (trips : List Trip)
      → All IsTrip trips
      → latencies f size (map times trips) ≡ map (λ trip. some (elapsed trip)) trips
  unfolding latencies
  latencies_lem size trips h =
      let (n, e) = payload_size-spaces size in
      ap (λ buf. echoes f buf (map times trips)) e ∙ echoes-buffer n (spaces 19) trips refl h
