-- ===== src/CalendarHeatmap.antt =====
-- internal/calendarheatmap/service.go: how many assets a user uploaded or took on each day.
--
-- A `time.Time` at midnight UTC is the number of its day, counted from a day so early that a window
-- before any date that is parsed still has numbers. `DateLib` is the layout "2006-01-02" of Go's
-- `time`. An `int32` and an `int64` are their bits.
pub mod Days
pub mod Counts
pub mod Series
pub mod Replies
mod Tests
use immich_go_backend.Base.{
  ℕ, zero, suc, ◌+◌, ◌-◌, ◌*◌, ◌/◌, ◌%◌, ◌^◌, String, Bool, true, false, not, ◌&&◌, ◌||◌, Option,
  none, some, List, [], ◌∷◌, ◌=ₛ◌, ltb, leb, if◌then◌else◌, Map, empty, put,
}
use immich_go_backend.Db.{
  Outcome, ok, err, M, continue, ◌>>=◌, ◌>>◌, return, wrap, need, check, Error,
  invalid_argument_error,
}
use immich_go_backend.Db.Activity.{day, HeatmapRow, get_calendar_heatmap}

pub record DateLib : Type 0 where
  pub parse : String → Option ℕ
  pub format : ℕ → String

pub record SeriesItem : Type 0 where
  pub date : String
  pub count : ℕ

pub record HeatmapReply : Type 0 where
  pub from : String
  pub series : List SeriesItem
  pub to : String
  pub total_count : ℕ

abbrev pub default_window_days : ℕ
default_window_days = 363

abbrev pub max_int32 : ℕ
max_int32 = 2147483647

unfoldable pub start_of_utc_day : ℕ → ℕ
start_of_utc_day time = time / day

abbrev pub refuse : {A : Type 0} → String → M A
refuse message db = err (invalid_argument_error message) db

unfoldable pub parsed_date : Option ℕ → M ℕ
parsed_date none = refuse "invalid date, expected YYYY-MM-DD"
parsed_date (some date) = return date

-- The fallback is a time.
unfoldable pub parse_optional_date : DateLib → String → ℕ → M ℕ
parse_optional_date lib value fallback =
    if value =ₛ "" then return (start_of_utc_day fallback) else parsed_date (lib.parse value)

unfoldable pub normalize_type : String → M String
normalize_type value =
    if value =ₛ ""
    then return "Upload"
    else if (value =ₛ "Upload") || (value =ₛ "Taken")
    then return value
    else refuse "type must be \"Upload\" or \"Taken\""

-- One row; `none` where its count does not fit an int32.
unfoldable pub add_row : DateLib → Option ℕ → ℕ → Map ℕ → Option (Map ℕ)
add_row lib none n counts = some counts
add_row lib (some date) n counts =
    if ltb max_int32 n then none else some (put counts (lib.format date) n)

abbrev pub and_then : {A B : Type 0} → Option A → (A → Option B) → Option B
and_then none f = none
and_then (some a) f = f a

unfoldable pub fill_counts : DateLib → List HeatmapRow → Map ℕ → Option (Map ℕ)
fill_counts lib [] counts = some counts
fill_counts lib (r ∷ rest) counts =
    and_then (add_row lib r.activity_date r.count counts) λ next. fill_counts lib rest next

-- `counts[key]` of a Go map.
abbrev pub count_at : Map ℕ → String → ℕ
count_at counts key = get (counts key)
  where
    get : Option ℕ → ℕ
    get none = 0
    get (some n) = n

-- The loop over the dates, with the int64 `total`; `none` where it has not ended within the rounds.
unfoldable pub fill_series : ℕ → DateLib → Map ℕ → ℕ → ℕ → ℕ → Option (List SeriesItem × ℕ)
fill_series zero lib counts to date total = none
fill_series (suc rounds) lib counts to date total =
    let n = count_at counts (lib.format date) in
    let rest = fill_series rounds lib counts to (date + 1) ((total + n) % 2 ^ 64) in
    if leb date to
    then prepend (record { date = lib.format date; count = n }) rest
    else some ([], total)
  where
    prepend : SeriesItem → Option (List SeriesItem × ℕ) → Option (List SeriesItem × ℕ)
    prepend item none = none
    prepend item (some (items, total)) = some (item ∷ items, total)

-- `total > math.MaxInt32` of an int64.
abbrev pub exceeds : ℕ → Bool
exceeds total = ltb total (2 ^ 63) && ltb max_int32 total

-- The reply, or `none` where the loop has not ended within the rounds.
unfoldable pub reply_with : DateLib → ℕ → ℕ → Option (List SeriesItem × ℕ) → M (Option HeatmapReply)
reply_with lib from to none = return none
reply_with lib from to (some (items, total)) =
    check (not (exceeds total)) "calendar heatmap total exceeds int32 limit"
    >> return (
        some (record {
          from = lib.format from;
          series = items;
          to = lib.format to;
          total_count = total % 2 ^ 32;
        }))

unfoldable pub in_order : ℕ → ℕ → M (Unit {0})
in_order from to = if ltb to from then refuse "from must be before to" else return tt

unfoldable pub get : DateLib → ℕ → ℕ → String → String → String → M (Option HeatmapReply)
get lib now owner from_value to_value type_value = do
  to ← parse_optional_date lib to_value now
  from ← parse_optional_date lib from_value ((to - default_window_days) * day)
  ordered ← in_order from to
  kind ← normalize_type type_value
  rows ← wrap "get calendar heatmap" (get_calendar_heatmap owner (from * day) ((to + 1) * day) kind)
  counts ← need "calendar heatmap count exceeds int32 limit" (fill_counts lib rows empty)
  reply_with lib from to (fill_series (to - from + 2) lib counts to from 0)
