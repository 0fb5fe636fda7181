-- ===== src/Evidence/Trace/Order.antt =====
-- The order of wall clocks, as texts and in time.
use millionws.Base.{ℕ, ◌+◌, ◌*◌, ◌<◌, ◌≡◌, ap, ◌∙◌, ◌&&◌, ◌||◌, [], ◌∷◌, ◌++◌, arith, ltb, ◌==◌}
use millionws.Base.Text.{Text}
use millionws.Base.Sort.{text_lt}
use millionws.Evidence.Trace.Clock.{two, clock}

text_lt-two :
    (n m : ℕ) (s t : Text)
    → n < 100
    → m < 100
    → text_lt (two n ++ s) (two m ++ t) ≡ (ltb n m || (n == m && text_lt s t))
unfolding text_lt
text_lt-two n m s t hn hm = ground arith

text_lt-colon : (s t : Text) → text_lt (b':' ∷ s) (b':' ∷ t) ≡ text_lt s t
unfolding text_lt
text_lt-colon s t = ground arith

abbrev pub seconds : ℕ → ℕ → ℕ → ℕ
seconds h m s = 3600 * h + 60 * m + s

by_parts :
    (a b c h m s : ℕ)
    → (a < 24) × (b < 60) × (c < 60)
    → (h < 24) × (m < 60) × (s < 60)
    → (ltb a h || (a == h && (ltb b m || (b == m && (ltb c s || (c == s && text_lt [] []))))))
      ≡ ltb (seconds a b c) (seconds h m s)
unfolding text_lt
by_parts a b c h m s p q = ground arith

-- The order of two wall clocks as texts is their order in time.
pub text_lt-clock :
    (a b c h m s : ℕ)
    → (a < 24) × (b < 60) × (c < 60)
    → (h < 24) × (m < 60) × (s < 60)
    → text_lt (clock a b c) (clock h m s) ≡ ltb (seconds a b c) (seconds h m s)
text_lt-clock a b c h m s p q =
    text_lt-two a h (b':' ∷ (two b ++ (b':' ∷ two c))) (b':' ∷ (two m ++ (b':' ∷ two s)))
      (omega arith) (omega arith)
    ∙ ap (λ r. ltb a h || (a == h && r))
        (text_lt-colon (two b ++ (b':' ∷ two c)) (two m ++ (b':' ∷ two s))
          ∙ text_lt-two b m (b':' ∷ two c) (b':' ∷ two s) (omega arith) (omega arith)
          ∙ ap (λ r. ltb b m || (b == m && r))
              (text_lt-colon (two c) (two s) ∙ text_lt-two c s [] [] (omega arith) (omega arith)))
    ∙ by_parts a b c h m s p q
