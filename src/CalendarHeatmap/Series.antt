-- ===== src/CalendarHeatmap/Series.antt =====
-- The loop of Get in internal/calendarheatmap/service.go: it visits each day once and ends.
use immich_go_backend.Base.{
  ℕ, zero, suc, ◌+◌, ◌-◌, ◌*◌, ◌%◌, ◌^◌, ◌<◌, ◌≤◌, ◌≡◌, refl, ◌∙◌, ap, inl, inr, true, false, some,
  List, [], ◌∷◌, leb, arith, Bool-cases, Map,
}
use immich_go_backend.Db.Rows.{All}
use immich_go_backend.CalendarHeatmap.{DateLib, SeriesItem, count_at, max_int32, fill_series}
use immich_go_backend.CalendarHeatmap.Counts.{Fits32}

-- `n` days from a date, each with its count.
abbrev pub series_of : DateLib → (ℕ → ℕ) → ℕ → ℕ → List SeriesItem
series_of lib count zero date = []
series_of lib count (suc n) date =
    record { date = lib.format date; count = count date } ∷ series_of lib count n (date + 1)

abbrev pub sum_of : (ℕ → ℕ) → ℕ → ℕ → ℕ
sum_of count zero date = 0
sum_of count (suc n) date = count date + sum_of count n (date + 1)

module _ (lib : DateLib) (counts : Map ℕ) where
  abbrev pub of_day : ℕ → ℕ
  of_day d = count_at counts (lib.format d)

  -- With a round for each day and one for the end, the loop ends.
  pub fill_series_ends :
      (rounds to date total : ℕ)
      → to + 2 ≤ date + rounds
      → 0 < rounds
      → (items : List SeriesItem) × (sum : ℕ) × (fill_series rounds lib counts to date total
          ≡ some (items, sum))
  unfolding fill_series
  fill_series_ends zero to date total h k = absurd (omega arith)
  fill_series_ends (suc rounds) to date total h k = elim (Bool-cases (leb date to)) [
    | inl more ↦
        let enough : to + 2 ≤ date + 1 + rounds = omega arith in
        let left : 0 < rounds = ground arith in
        let (items, sum, e) =
          fill_series_ends rounds to (date + 1) ((total + of_day date) % 2 ^ 64) enough left in
        (record { date = lib.format date; count = of_day date } ∷ items, sum, rw (more, e) refl)
    | inr over ↦ ([], total, rw over refl)
  ]

  -- What it returns, where the int64 does not overflow.
  fill_series-series_of :
      (n rounds to date total : ℕ)
      → date + n ≡ to + 1
      → n < rounds
      → total + sum_of of_day n date < 2 ^ 64
      → fill_series rounds lib counts to date total
        ≡ some (series_of lib of_day n date, total + sum_of of_day n date)
  unfolding fill_series
  fill_series-series_of zero (suc rounds) to date total e h k =
      let over : leb date to ≡ false = ground arith in
      let same : total ≡ total + 0 = omega arith in rw over (ap (λ t. some ([], t)) same)
  fill_series-series_of (suc n) (suc rounds) to date total e h k =
      let more : leb date to ≡ true = ground arith in
      let exact : (total + of_day date) % 2 ^ 64 ≡ total + of_day date = ground arith in
      let fits : (total + of_day date) + sum_of of_day n (date + 1) < 2 ^ 64 = ground arith in
      let same : (total + of_day date) + sum_of of_day n (date + 1)
          ≡ total + (of_day date + sum_of of_day n (date + 1)) =
        ground arith in
      rw
        (
          exact,
          fill_series-series_of n rounds to (date + 1) (total + of_day date) (omega arith)
              (omega arith) fits,
          more,
          same,
        )
        refl
  fill_series-series_of n zero to date total e h k = absurd (omega arith)

  pub fill_series_whole :
      (from to : ℕ)
      → from ≤ to
      → sum_of of_day (to + 1 - from) from < 2 ^ 63
      → fill_series (to - from + 2) lib counts to from 0
        ≡ some (series_of lib of_day (to + 1 - from) from, sum_of of_day (to + 1 - from) from)
  fill_series_whole from to h k =
      let days : from + (to + 1 - from) ≡ to + 1 = omega arith in
      let zero_left : 0 + sum_of of_day (to + 1 - from) from ≡ sum_of of_day (to + 1 - from) from =
        omega arith in
      fill_series-series_of (to + 1 - from) (to - from + 2) to from 0 days (omega arith)
        (omega arith)
      ∙ ap (λ t. some (series_of lib of_day (to + 1 - from) from, t)) zero_left

  pub sum_of_bound : Fits32 counts → (n date : ℕ) → sum_of of_day n date ≤ n * max_int32
  sum_of_bound fits zero date = omega arith
  sum_of_bound fits (suc n) date =
      let this = fits (lib.format date) in let rest = sum_of_bound fits n (date + 1) in omega arith

pub sum_of_ext :
    (f g : ℕ → ℕ) (n date : ℕ)
    → ((d : ℕ) → date ≤ d → d < date + n → f d ≡ g d)
    → sum_of f n date ≡ sum_of g n date
sum_of_ext f g zero date h = refl
sum_of_ext f g (suc n) date h = omega (
  arith,
  h date (omega arith) (omega arith),
  sum_of_ext f g n (date + 1) (λ d p q. h d (omega arith) (omega arith)),
)

pub series_of_ext :
    (lib : DateLib) (f g : ℕ → ℕ) (n date : ℕ)
    → ((d : ℕ) → date ≤ d → d < date + n → f d ≡ g d)
    → series_of lib f n date ≡ series_of lib g n date
series_of_ext lib f g zero date h = refl
series_of_ext lib f g (suc n) date h =
    rw
      (
        h date (omega arith) (omega arith),
        series_of_ext lib f g n (date + 1) (λ d p q. h d (omega arith) (omega arith)),
      )
      refl

-- The sum of the counts of a reply.
abbrev pub total_of : List SeriesItem → ℕ
total_of [] = 0
total_of (i ∷ rest) = i.count + total_of rest

pub total_of-series_of :
    (lib : DateLib) (f : ℕ → ℕ) (n date : ℕ) → total_of (series_of lib f n date) ≡ sum_of f n date
total_of-series_of lib f zero date = refl
total_of-series_of lib f (suc n) date = ap (λ t. f date + t) (total_of-series_of lib f n (date + 1))

abbrev pub Fits32Item : SeriesItem → Type 0
Fits32Item i = i.count ≤ max_int32

pub series_of-Fits32Item :
    (lib : DateLib) (f : ℕ → ℕ) (n date : ℕ)
    → ((d : ℕ) → f d ≤ max_int32)
    → All Fits32Item (series_of lib f n date)
series_of-Fits32Item lib f zero date h = tt
series_of-Fits32Item lib f (suc n) date h = (h date, series_of-Fits32Item lib f n (date + 1) h)
