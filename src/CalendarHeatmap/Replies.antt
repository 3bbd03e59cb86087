-- ===== src/CalendarHeatmap/Replies.antt =====
-- What Get of internal/calendarheatmap/service.go answers.
use immich_go_backend.Base.{
  ℕ, zero, suc, ◌+◌, ◌-◌, ◌*◌, ◌/◌, ◌%◌, ◌^◌, ◌<◌, ◌≤◌, ◌≡◌, refl, sym, ◌∙◌, ap, inl, inr, String,
  true, false, not, ◌||◌, ◌=ₛ◌, Option, none, some, List, [], ◌∷◌, map, ltb, select, arith,
  Bool-cases, Map, empty,
}
use immich_go_backend.Db.{Db, ok, wrap, need, check, statement}
use immich_go_backend.Db.Activity.{day, is_within, is_of_owner, activity_at, get_calendar_heatmap}
use immich_go_backend.Db.Rows.{All}
use immich_go_backend.Db.Triples.{
  Post, Triple, bind-Triple, wrap-Triple, need-Triple, check-Triple, pre-Triple, statement-Triple,
}
use immich_go_backend.CalendarHeatmap.{
  DateLib, SeriesItem, HeatmapReply, default_window_days, max_int32, start_of_utc_day, parsed_date,
  parse_optional_date, in_order, normalize_type, fill_counts, fill_series, exceeds, reply_with, get,
}
use immich_go_backend.CalendarHeatmap.Days.{count_within, on_day, on_day_within, count_within_split}
use immich_go_backend.CalendarHeatmap.Counts.{
  IsDateLib, Fits32, Fits32-fill_counts, fill_counts-group_days,
}
use immich_go_backend.CalendarHeatmap.Series.{
  series_of, sum_of, of_day, fill_series_ends, fill_series_whole, sum_of_bound, sum_of_ext,
  series_of_ext, total_of, total_of-series_of, Fits32Item, series_of-Fits32Item,
}

abbrev Any : Db → Type 0
Any db = Unit

module _ (lib : DateLib) (now : ℕ) (IsDate : ℕ → Type 0) (Q : Option HeatmapReply → Type 0)
    (today : IsDate (now / day)) (parsed : (s : String) (d : ℕ) → lib.parse s ≡ some d → IsDate d)
    (earlier : (d : ℕ) → IsDate d → IsDate ((d - default_window_days) * day / day))
    (answers : (from to : ℕ) (counts : Map ℕ) (db : Db)
      → from ≤ to
      → IsDate to
      → Fits32 counts
      → Post
          (λ r final. Q r)
          Any
          (reply_with lib from to (fill_series (to - from + 2) lib counts to from 0) db)) where
  date-Triple :
      (value : String) (fallback : ℕ)
      → IsDate (fallback / day)
      → Triple Any (parse_optional_date lib value fallback) (λ d db. IsDate d) Any
  unfolding parse_optional_date start_of_utc_day parsed_date
  date-Triple value fallback h = elim (Bool-cases (value =ₛ "")) [
    | inl e ↦ rw e (record { run = λ db p. h })
    | inr e ↦ rw e (record { run = λ db p. of_parse db (lib.parse value) refl })
  ]
    where
      of_parse :
          (db : Db) (o : Option ℕ)
          → lib.parse value ≡ o
          → Post (λ d final. IsDate d) Any (parsed_date o db)
      of_parse db none q = tt
      of_parse db (some d) q = parsed value d q

  order-Triple : (from to : ℕ) → Triple Any (in_order from to) (λ u db. from ≤ to) Any
  unfolding in_order
  order-Triple from to = elim (Bool-cases (ltb to from)) [
    | inl e ↦ rw e (record { run = λ db p. tt })
    | inr e ↦ let h : from ≤ to = ground arith in rw e (record { run = λ db p. h })
  ]

  type-Triple : (value : String) → Triple Any (normalize_type value) (λ k. Any) Any
  unfolding normalize_type
  type-Triple value = elim (Bool-cases (value =ₛ "")) [
    | inl e ↦ rw e (record { run = λ db p. tt })
    | inr e ↦ elim (Bool-cases ((value =ₛ "Upload") || (value =ₛ "Taken"))) [
      | inl f ↦ rw (e, f) (record { run = λ db p. tt })
      | inr f ↦ rw (e, f) (record { run = λ db p. tt })
    ]
  ]

  rows-Triple :
      (owner start stop : ℕ) (kind : String)
      → Triple Any (get_calendar_heatmap owner start stop kind) (λ rows. Any) Any
  unfolding get_calendar_heatmap
  rows-Triple owner start stop kind =
      statement-Triple (λ db later p. tt) (λ db p. tt) (record { run = λ db p. tt })

  pub get-Triple :
      (owner : ℕ) (f t k : String) → Triple Any (get lib now owner f t k) (λ r final. Q r) Any
  unfolding get
  get-Triple owner f t k = bind-Triple (date-Triple t now today) λ to. record {
    run = λ db is_to.
        (bind-Triple (date-Triple f ((to - default_window_days) * day) (earlier to is_to)) λ from.
            pre-Triple (λ db p. tt)
              (bind-Triple (order-Triple from to) λ ordered. record {
                run = λ db le.
                    (bind-Triple (type-Triple k) λ kind.
                        bind-Triple
                          (wrap-Triple _ (rows-Triple owner (from * day) ((to + 1) * day) kind))
                          λ rows.
                            bind-Triple (need-Triple _ (fill_counts lib rows empty) (λ db p. tt))
                              λ counts. record {
                                run = λ db (p, filled). answers from to counts db le is_to (
                                    Fits32-fill_counts lib rows empty counts filled
                                      (λ key. omega arith));
                              }).run
                      db tt;
              })).run
          db tt;
  }

-- The reply is there: the loop over the dates has ended.
pub record Ended (r : Option HeatmapReply) : Type 0 where
  pub reply : HeatmapReply
  pub there : r ≡ some reply

reply_with-Ended :
    (lib : DateLib) (from to : ℕ) (o : Option (List SeriesItem × ℕ)) (items : List SeriesItem)
    (sum : ℕ) (db : Db)
    → o ≡ some (items, sum)
    → Post (λ r final. Ended r) Any (reply_with lib from to o db)
unfolding reply_with
reply_with-Ended lib from to o items sum db e = rw e (
    (bind-Triple
        (check-Triple {P = Any} {E = Any} "calendar heatmap total exceeds int32 limit"
          (not (exceeds sum)) (λ db p. tt))
        λ done. record { run = λ db p. record { reply = _; there = refl } }).run
      db tt)

-- The loop over the dates always ends: whatever the request, the database and the calendar are, Get
-- answers with an error or with a reply.
pub get-Ended :
    (lib : DateLib) (now owner : ℕ) (from to kind : String) (db : Db)
    → Post (λ r final. Ended r) Any (get lib now owner from to kind db)
get-Ended lib now owner from to kind db =
    (get-Triple lib now (λ d. Unit) Ended tt (λ s d e. tt) (λ d p. tt)
        (λ from to counts next le p fits.
          let (items, sum, e) =
            fill_series_ends lib counts (to - from + 2) to from 0 (omega arith) (omega arith) in
          reply_with-Ended lib from to _ items sum next e)
        owner from to kind).run
      db tt

-- Every number of the reply fits an int32, and its total is the sum of its counts.
pub record Bounded (r : HeatmapReply) : Type 0 where
  pub total_fits : r.total_count ≤ max_int32
  pub counts_fit : All Fits32Item r.series
  pub total_is_sum : r.total_count ≡ total_of r.series

abbrev pub BoundedReply : Option HeatmapReply → Type 0
BoundedReply none = Unit
BoundedReply (some r) = Bounded r

-- A sum that the check lets through is the one that the reply has.
small_sum :
    (sum : ℕ) → sum < 2 ^ 63 → not (exceeds sum) ≡ true → (sum % 2 ^ 32 ≡ sum) × (sum ≤ max_int32)
small_sum sum h e =
    let small : sum ≤ max_int32 = ground arith in
    let exact : sum % 2 ^ 32 ≡ sum = ground arith in (exact, small)

reply_with-Bounded :
    (lib : DateLib) (from to : ℕ) (items : List SeriesItem) (sum : ℕ) (db : Db)
    → sum < 2 ^ 63
    → All Fits32Item items
    → sum ≡ total_of items
    → Post (λ r final. BoundedReply r) Any (reply_with lib from to (some (items, sum)) db)
unfolding reply_with
reply_with-Bounded lib from to items sum db h k e =
    (bind-Triple
        (check-Triple {P = Any} {E = Any} "calendar heatmap total exceeds int32 limit"
          (not (exceeds sum)) (λ db p. tt))
        λ done. record {
          run = λ db (p, q).
              let (exact, small) = small_sum sum h q in
              record { total_fits = rw exact small; counts_fit = k; total_is_sum = exact ∙ e };
        }).run
      db tt

-- Neither the int64 in which Get sums the counts nor an int32 of its reply overflows: the total of a
-- reply is the sum of its counts, and all are at most the largest int32. The dates that the calendar
-- reads, and today, are within 2^32 days.
pub get-Bounded :
    (lib : DateLib) (now owner : ℕ) (from to kind : String) (db : Db)
    → IsDateLib lib
    → now / day < 2 ^ 32
    → Post (λ r final. BoundedReply r) Any (get lib now owner from to kind db)
get-Bounded lib now owner from to kind db law h =
    (get-Triple lib now (λ d. d < 2 ^ 32) BoundedReply h (λ s d e. (law.parse_bound s d e).1)
        (λ d p. omega arith)
        (λ from to counts next le p fits.
          let n = to + 1 - from in
          let bound = sum_of_bound lib counts fits n from in
          let small : sum_of (of_day lib counts) n from < 2 ^ 63 = omega arith in
          rw (fill_series_whole lib counts from to le small) (
            reply_with-Bounded lib from to _ _ next small
              (series_of-Fits32Item lib (of_day lib counts) n from (λ d. fits (lib.format d)))
              (sym (total_of-series_of lib (of_day lib counts) n from))))
        owner from to kind).run
      db tt

-- The counts of the days of a window add up to the activities in it.
sum_of-count_within :
    (ts : List ℕ) (n from : ℕ)
    → sum_of (λ d. on_day d ts) n from ≡ count_within (from * day) ((from + n) * day) ts
sum_of-count_within ts zero from = sym (none_within ts)
  where
    none_within : (ts : List ℕ) → count_within (from * day) ((from + 0) * day) ts ≡ 0
    none_within [] = refl
    none_within (t ∷ ts) = ground (arith, none_within ts)
sum_of-count_within ts (suc n) from =
    let later = sum_of-count_within ts n (from + 1) in
    let split =
      count_within_split (from * day) ((from + 1) * day) ((from + suc n) * day) ts (omega arith)
        (omega arith) in
    let ends : (from + 1 + n) * day ≡ (from + suc n) * day = omega arith in
    ap (λ s. on_day from ts + s) (later ∙ ap (λ e. count_within ((from + 1) * day) e ts) ends)
    ∙ sym split

-- The times at which the user's assets that are not deleted were uploaded, or taken.
abbrev pub times_of : Db → ℕ → String → List ℕ
times_of db owner kind = map (activity_at kind) (select (is_of_owner owner) db.assets)

-- Without outages the reply has every day from the first to the last, each with the number of the
-- user's assets of that day that are not deleted, and the total is their number in the whole window.
-- The request is valid, no more than the largest int32 of assets are in the window, and the calendar
-- gives different days different texts.
pub get_counts :
    (lib : DateLib) (now owner from to : ℕ) (from_value to_value type_value kind : String) (db : Db)
    → IsDateLib lib
    → parse_optional_date lib to_value now db ≡ ok to db
    → parse_optional_date lib from_value ((to - default_window_days) * day) db ≡ ok from db
    → normalize_type type_value db ≡ ok kind db
    → from ≤ to
    → count_within (from * day) ((to + 1) * day) (times_of db owner kind) ≤ max_int32
    → db.outages ≡ []
    → get lib now owner from_value to_value type_value db
      ≡ ok
          (some (record {
            from = lib.format from;
            series = series_of lib (λ d. on_day d (times_of db owner kind)) (to + 1 - from) from;
            to = lib.format to;
            total_count = count_within (from * day) ((to + 1) * day) (times_of db owner kind);
          }))
          (record db { outages = [] })
unfolding get in_order get_calendar_heatmap statement wrap need reply_with check
get_counts lib now owner from to from_value to_value type_value kind db law read_to read_from
      read_kind le small calm =
    let ts = times_of db owner kind in
    let (counts, filled, at) =
      fill_counts-group_days lib law (select (is_within (from * day) ((to + 1) * day)) ts) small in
    let ordered : ltb to from ≡ false = ground arith in
    let same : (d : ℕ) → from ≤ d → d < from + (to + 1 - from) → of_day lib counts d ≡ on_day d ts =
      λ d p q. at d ∙ on_day_within d from (to + 1) ts p (omega arith) in
    let sums = sum_of_ext (of_day lib counts) (λ d. on_day d ts) (to + 1 - from) from same in
    let ends : (from + (to + 1 - from)) * day ≡ (to + 1) * day = omega arith in
    let total =
      sums
      ∙ sum_of-count_within ts (to + 1 - from) from
      ∙ ap (λ e. count_within (from * day) e ts) ends in
    let items =
      series_of_ext lib (of_day lib counts) (λ d. on_day d ts) (to + 1 - from) from same in
    let bound : sum_of (of_day lib counts) (to + 1 - from) from < 2 ^ 63 = omega arith in
    let passes : not (exceeds (count_within (from * day) ((to + 1) * day) ts)) ≡ true =
      ground arith in
    let exact : count_within (from * day) ((to + 1) * day) ts % 2 ^ 32
        ≡ count_within (from * day) ((to + 1) * day) ts =
      omega arith in
    rw
      (
        read_to,
        read_from,
        ordered,
        read_kind,
        calm,
        filled,
        fill_series_whole lib counts from to le bound,
        items,
        total,
        passes,
        exact,
      )
      refl
