-- ===== src/CalendarHeatmap/Tests.antt =====
-- A user with three photos on two days, and the theorems of CalendarHeatmap at concrete inputs.
use immich_go_backend.Base.{
  ℕ, ◌+◌, ◌*◌, ◌≡◌, refl, inl, inr, ◌=ₛ◌, none, some, [], ◌∷◌, arith, if◌then◌else◌, Bool-cases,
}
use immich_go_backend.Base.Strokes.{strokes, strokes-inj}
use immich_go_backend.Db.{active, Asset, Db, ok}
use immich_go_backend.Db.Activity.{day}
use immich_go_backend.Db.Triples.{Post}
use immich_go_backend.CalendarHeatmap.{
  DateLib, HeatmapReply, get, parse_optional_date, parsed_date, start_of_utc_day, normalize_type,
}
use immich_go_backend.CalendarHeatmap.Counts.{IsDateLib}
use immich_go_backend.CalendarHeatmap.Replies.{
  Ended, BoundedReply, get-Ended, get-Bounded, get_counts,
}

abbrev dates : DateLib
dates = record {
  parse = λ s. if s =ₛ "400" then some 400 else if s =ₛ "402" then some 402 else none;
  format = strokes;
}

dates-IsDateLib : IsDateLib dates
dates-IsDateLib = record {
  format-inj = strokes-inj;
  parse_bound = λ s d h. elim (Bool-cases (s =ₛ "400")) [
    | inl e ↦
        let at : some 400 ≡ some d = rw e at h in
        let same : 400 ≡ d = cc in (omega (arith, same), omega (arith, same))
    | inr e ↦ elim (Bool-cases (s =ₛ "402")) [
      | inl f ↦
          let at : some 402 ≡ some d = rw (e, f) at h in
          let same : 402 ≡ d = cc in (omega (arith, same), omega (arith, same))
      | inr f ↦ let no : none ≡ some d = rw (e, f) at h in absurd cc
    ]
  ];
}

abbrev photo : ℕ → ℕ → Asset
photo id time = record {
  id = id;
  owner_id = 1;
  device_id = "phone";
  original_path = "/photo";
  kind = "IMAGE";
  updated_at = time;
  created_at = time;
  file_created_at = none;
  original_file_name = "photo.jpg";
  deleted_at = none;
  local_date_time = time;
  stack_id = none;
  status = active;
}

-- Two photos on day 400, one on day 402.
abbrev photos : Db
photos = record {
  users = 1 ∷ [];
  albums = [];
  album_assets = [];
  album_users = [];
  exif_sizes = [];
  assets = photo 10 (402 * day) ∷ photo 11 (400 * day) ∷ photo 12 (400 * day + 5) ∷ [];
  stacks = [];
  links = [];
  link_assets = [];
  workflows = [];
  executions = [];
  clock = 500 * day;
  outages = [];
}

abbrev heatmap : HeatmapReply
heatmap = record {
  from = strokes 400;
  series =
      record { date = strokes 400; count = 2 }
      ∷ record { date = strokes 401; count = 0 }
      ∷ record { date = strokes 402; count = 1 }
      ∷ [];
  to = strokes 402;
  total_count = 3;
}

get_counts_example : get dates (500 * day) 1 "400" "402" "Taken" photos ≡ ok (some heatmap) photos
unfolding parse_optional_date parsed_date normalize_type start_of_utc_day
get_counts_example =
    get_counts dates (500 * day) 1 400 402 "400" "402" "Taken" "Taken" photos dates-IsDateLib refl
      refl refl (omega arith) (omega arith) refl

get-Ended_example :
    Post (λ r final. Ended r) (λ final. Unit) (get dates (500 * day) 1 "400" "402" "Taken" photos)
get-Ended_example = get-Ended dates (500 * day) 1 "400" "402" "Taken" photos

get-Bounded_example :
    Post
      (λ r final. BoundedReply r)
      (λ final. Unit)
      (get dates (500 * day) 1 "400" "402" "Taken" photos)
get-Bounded_example =
    get-Bounded dates (500 * day) 1 "400" "402" "Taken" photos dates-IsDateLib (omega arith)
