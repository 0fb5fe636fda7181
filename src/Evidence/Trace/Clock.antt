-- ===== src/Evidence/Trace/Clock.antt =====
-- The wall clock of the traces, "HH:MM:SS".
use millionws.Base.{
  ℕ, ◌+◌, ◌*◌, ◌/◌, ◌%◌, ◌<◌, ◌≡◌, refl, ap, ◌∙◌, some, List, [], ◌∷◌, ◌++◌, arith,
}
use millionws.Base.Int.{ℤ, pos, ◌+ℤ◌, scale}
use millionws.Base.Text.{Text, split_at, split_at_from}
use millionws.Base.Text.Words.{strip-solid}
use millionws.Base.Text.Integer.{int_of_text, digits_from}
use millionws.Base.Result.{ok}
use millionws.Evidence.Trace.{sec, weigh, clock_weights}

-- A number below 100, with two digits.
abbrev pub two : ℕ → Text
two n = (b'0' + n / 10) ∷ (b'0' + n % 10) ∷ []

abbrev pub clock : ℕ → ℕ → ℕ → Text
clock h m s = two h ++ (b':' ∷ (two m ++ (b':' ∷ two s)))

pub int_of_text-two : (n : ℕ) → n < 100 → int_of_text (two n) ≡ some (pos n)
unfolding int_of_text digits_from
int_of_text-two n h = rw (strip-solid (two n) (ground arith)) (ground arith)

pub split_at-clock :
    (h m s : ℕ)
    → h < 100
    → m < 100
    → s < 100
    → split_at b':' (clock h m s) ≡ two h ∷ two m ∷ two s ∷ []
unfolding split_at split_at_from
split_at-clock h m s hh hm hs = ground arith

weigh-cons :
    (total n : ℤ) (p : Text) (ps : List Text) (m : ℕ) (ms : List ℕ)
    → int_of_text p ≡ some n
    → weigh total (p ∷ ps) (m ∷ ms) ≡ weigh (total +ℤ scale m n) ps ms
unfolding weigh
weigh-cons total n p ps m ms h = ground arith

weigh-pos :
    (a n : ℕ) (p : Text) (ps : List Text) (m : ℕ) (ms : List ℕ)
    → int_of_text p ≡ some (pos n)
    → weigh (pos a) (p ∷ ps) (m ∷ ms) ≡ weigh (pos (a + m * n)) ps ms
unfolding ◌+ℤ◌ scale
weigh-pos a n p ps m ms h =
    weigh-cons (pos a) (pos n) p ps m ms h ∙ ap (λ t. weigh t ps ms) (ground arith)

weigh-done : (total : ℤ) (ms : List ℕ) → weigh total [] ms ≡ ok total
unfolding weigh
weigh-done total ms = refl

sec-eq : (t : Text) → sec t ≡ weigh (pos 0) (split_at b':' t) clock_weights
unfolding sec
sec-eq t = refl

-- `sec` of plot_tcp_bound.py gives, of a wall clock with two digits in each part, the number of
-- seconds since midnight.
pub sec-clock :
    (h m s : ℕ) → h < 100 → m < 100 → s < 100 → sec (clock h m s) ≡ ok (pos (3600 * h + 60 * m + s))
sec-clock h m s hh hm hs =
    sec-eq (clock h m s)
    ∙ ap (λ ps. weigh (pos 0) ps clock_weights) (split_at-clock h m s hh hm hs)
    ∙ weigh-pos 0 h (two h) (two m ∷ two s ∷ []) 3600 (60 ∷ 1 ∷ []) (int_of_text-two h hh)
    ∙ weigh-pos (0 + 3600 * h) m (two m) (two s ∷ []) 60 (1 ∷ []) (int_of_text-two m hm)
    ∙ weigh-pos (0 + 3600 * h + 60 * m) s (two s) [] 1 [] (int_of_text-two s hs)
    ∙ weigh-done (pos (0 + 3600 * h + 60 * m + 1 * s)) []
    ∙ ap (λ n. ok (pos n)) (omega arith)
