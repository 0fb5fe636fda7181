-- ===== src/Evidence/Timeline/Window.antt =====
-- The second chart of plot_run.py, against the samples that were written to the trace.
use millionws.Base.{
  ℕ, ◌<◌, ◌≡◌, refl, ap, Bool, ◌&&◌, some, List, [], ◌∷◌, filter, map, All, arith, leb, Bool-cases,
  inl, inr,
}
use millionws.Base.Int.{pos}
use millionws.Base.Text.{codes, text_eq}
use millionws.Base.Text.Integer.{decimal}
use millionws.Base.Text.Integer.Digits.{int_of_text-decimal}
use millionws.Base.Dict.{lookup}
use millionws.Base.Result.{Result, ok, raised, index_error, ◌>>=◌}
use millionws.Record.Number.{Float}
use millionws.Evidence.Trace.{Row}
use millionws.Evidence.Trace.Clock.{clock, int_of_text-two, split_at-clock}
use millionws.Evidence.Trace.Order.{seconds, text_lt-clock}
use millionws.Evidence.Timeline.{
  collect, hms, in_zoom_text, in_zoom, zoomed, int_column, hms_column, millions, Zoom, zoom,
  first_of,
}

-- A line of the trace.
pub record Sample : Type 0 where
  pub hour : ℕ
  pub minute : ℕ
  pub second : ℕ
  pub current : ℕ
  pub anon : ℕ
  pub sock : ℕ
  pub kernel : ℕ
  pub estab : ℕ

abbrev pub IsTime : Sample → Type 0
IsTime x = (x.hour < 24) × (x.minute < 60) × (x.second < 60)

abbrev pub row : Sample → Row
row x =
    (codes "local", some (clock x.hour x.minute x.second))
    ∷ (codes "current_mib", some (decimal x.current))
    ∷ (codes "anon_mib", some (decimal x.anon))
    ∷ (codes "sock_mib", some (decimal x.sock))
    ∷ (codes "kernel_mib", some (decimal x.kernel))
    ∷ (codes "estab", some (decimal x.estab))
    ∷ []

abbrev pub second_of : Sample → ℕ
second_of x = seconds x.hour x.minute x.second

-- From 11:33:20 to 11:34:12.
abbrev pub is_shown : Sample → Bool
is_shown x = leb 41600 (second_of x) && leb (second_of x) 41652

collect-map :
    {A B C : Type 0} (call : B → Result C) (g : A → B) (h : A → C) (P : A → Type 0) (xs : List A)
    → ((x : A) → P x → call (g x) ≡ ok (h x))
    → All P xs
    → collect call (map g xs) ≡ ok (map h xs)
unfolding collect
collect-map call g h P [] e p = refl
collect-map call g h P (x ∷ xs) e p = rw (e x p.0, collect-map call g h P xs e p.1) refl

int_of_column :
    (x : Sample)
    → (int_column (codes "current_mib") (row x) ≡ ok (pos x.current))
      × (int_column (codes "anon_mib") (row x) ≡ ok (pos x.anon))
      × (int_column (codes "sock_mib") (row x) ≡ ok (pos x.sock))
      × (int_column (codes "kernel_mib") (row x) ≡ ok (pos x.kernel))
      × (int_column (codes "estab") (row x) ≡ ok (pos x.estab))
unfolding lookup text_eq
int_of_column x = (
  rw (int_of_text-decimal x.current) refl,
  rw (int_of_text-decimal x.anon) refl,
  rw (int_of_text-decimal x.sock) refl,
  rw (int_of_text-decimal x.kernel) refl,
  rw (int_of_text-decimal x.estab) refl,
)

hms-clock : (h m s : ℕ) → h < 24 → m < 60 → s < 60 → hms (clock h m s) ≡ ok (seconds h m s)
unfolding hms
hms-clock h m s hh hm hs =
    rw
      (
        hms,
        split_at-clock h m s (omega arith) (omega arith) (omega arith),
        int_of_text-two h (omega arith),
        int_of_text-two m (omega arith),
        int_of_text-two s (omega arith),
      )
      (ground arith)

hms_of_column : (x : Sample) → IsTime x → hms_column (row x) ≡ ok (second_of x)
unfolding lookup text_eq
hms_of_column x t = hms-clock x.hour x.minute x.second t.0 t.1 t.2

in_zoom-row : (x : Sample) → IsTime x → in_zoom (row x) ≡ ok (is_shown x)
unfolding in_zoom lookup text_eq
in_zoom-row x t =
    rw
      (
        in_zoom,
        in_zoom_text,
        text_lt-clock x.hour x.minute x.second 11 33 20 t (omega arith),
        text_lt-clock 11 34 12 x.hour x.minute x.second (omega arith) t,
      )
      (ground arith)

zoomed-rows :
    (xs : List Sample) → All IsTime xs → zoomed (map row xs) ≡ ok (map row (filter is_shown xs))
unfolding zoomed
zoomed-rows [] t = refl
zoomed-rows (x ∷ xs) t = elim (Bool-cases (is_shown x)) [
  | inl e ↦ rw (zoomed, in_zoom-row x t.0, zoomed-rows xs t.1, e) refl
  | inr e ↦ rw (zoomed, in_zoom-row x t.0, zoomed-rows xs t.1, e) refl
]

All-filter : (keep : Sample → Bool) (xs : List Sample) → All IsTime xs → All IsTime (filter keep xs)
All-filter keep [] t = tt
All-filter keep (x ∷ xs) t = ground (arith, All-filter keep xs t.1)

module _ (f : Float) where
  -- The chart of the samples in its window; its label stands at the first of them.
  abbrev pub chart : List Sample → Result (Zoom f)
  chart [] = raised index_error
  chart (y ∷ ys) = ok (record {
    times = map second_of (y ∷ ys);
    total = map (λ x. pos x.current) (y ∷ ys);
    anon = map (λ x. pos x.anon) (y ∷ ys);
    sock = map (λ x. pos x.sock) (y ∷ ys);
    kernel = map (λ x. pos x.kernel) (y ∷ ys);
    limit_label_at = second_of y;
    profile_start = seconds 11 33 39;
    established = map (λ x. millions f (f.of_int (pos x.estab))) (y ∷ ys);
  })

  map-millions :
      (ys : List Sample)
      → map (λ n. millions f (f.of_int n)) (map (λ (x : Sample). pos x.estab) ys)
        ≡ map (λ x. millions f (f.of_int (pos x.estab))) ys
  map-millions [] = refl
  map-millions (y ∷ ys) = ap (λ l. millions f (f.of_int (pos y.estab)) ∷ l) (map-millions ys)

  after :
      (ys : List Sample)
      → ◌>>=◌ {B = Zoom f} (first_of (map second_of ys)) (λ label_at. ok (record {
        times = map second_of ys;
        total = map (λ x. pos x.current) ys;
        anon = map (λ x. pos x.anon) ys;
        sock = map (λ x. pos x.sock) ys;
        kernel = map (λ x. pos x.kernel) ys;
        limit_label_at = label_at;
        profile_start = seconds 11 33 39;
        established = map (λ n. millions f (f.of_int n)) (map (λ (x : Sample). pos x.estab) ys);
      }))
        ≡ chart ys
  after [] = refl
  after (y ∷ ys) = rw (map-millions ys) refl

  zoom-chart :
      (rows : List Row) (ys : List Sample)
      → zoomed rows ≡ ok (map row ys)
      → All IsTime ys
      → zoom f rows ≡ chart ys
  unfolding zoom
  zoom-chart rows ys h t =
      rw
        (
          zoom,
          h,
          collect-map hms_column row second_of IsTime ys hms_of_column t,
          collect-map (int_column (codes "current_mib")) row (λ x. pos x.current) IsTime ys
              (λ x p. (int_of_column x).0) t,
          collect-map (int_column (codes "anon_mib")) row (λ x. pos x.anon) IsTime ys
              (λ x p. (int_of_column x).1) t,
          collect-map (int_column (codes "sock_mib")) row (λ x. pos x.sock) IsTime ys
              (λ x p. (int_of_column x).2) t,
          collect-map (int_column (codes "kernel_mib")) row (λ x. pos x.kernel) IsTime ys
              (λ x p. (int_of_column x).3) t,
          hms-clock 11 33 39 (omega arith) (omega arith) (omega arith),
          collect-map (int_column (codes "estab")) row (λ x. pos x.estab) IsTime ys
              (λ x p. (int_of_column x).4) t,
        )
        (after ys)

  -- Of a trace whose lines are samples with a wall clock, the second chart shows the samples from
  -- 11:33:20 to 11:34:12, in order and each at its time, with its sizes and with its sockets in
  -- millions; its label stands at the first of them. Where there is none, IndexError is raised.
  pub zoom-samples :
      (xs : List Sample) → All IsTime xs → zoom f (map row xs) ≡ chart (filter is_shown xs)
  zoom-samples xs t =
      zoom-chart (map row xs) (filter is_shown xs) (zoomed-rows xs t) (All-filter is_shown xs t)
