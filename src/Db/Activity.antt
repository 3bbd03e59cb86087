-- ===== src/Db/Activity.antt =====
-- GetCalendarHeatmap of internal/db/sqlc/queries.sql.go: the assets of a user counted by UTC day.
use immich_go_backend.Base.{
  ℕ, ◌/◌, ◌+◌, String, Bool, ◌&&◌, Option, some, List, [], ◌∷◌, map, ◌==◌, ◌=ₛ◌, ltb, leb,
  if◌then◌else◌, select,
}
use immich_go_backend.Db.{Asset, Db, M, ok, statement}
use immich_go_backend.Db.Assets.{is_null}

-- The microseconds of a day. A date is the number of its day.
abbrev pub day : ℕ
day = 86400000000

abbrev pub activity_at : String → Asset → ℕ
activity_at kind a = if kind =ₛ "Taken" then a.local_date_time else a.created_at

abbrev pub is_of_owner : ℕ → Asset → Bool
is_of_owner owner a = a.owner_id == owner && is_null a.deleted_at

abbrev pub is_within : ℕ → ℕ → ℕ → Bool
is_within start stop t = leb start t && ltb t stop

pub record HeatmapRow : Type 0 where
  pub activity_date : Option ℕ
  pub count : ℕ

-- One more activity on a day; the days ascend.
abbrev pub count_day : ℕ → List (ℕ × ℕ) → List (ℕ × ℕ)
count_day d [] = (d, 1) ∷ []
count_day d ((e, n) ∷ rest) =
    let later = count_day d rest in
    if d == e then (e, n + 1) ∷ rest else if ltb d e then (d, 1) ∷ (e, n) ∷ rest else (e, n) ∷ later

-- GROUP BY activity_date ORDER BY activity_date ASC, with COUNT(*)
abbrev pub group_days : List ℕ → List (ℕ × ℕ)
group_days [] = []
group_days (t ∷ ts) = count_day (t / day) (group_days ts)

abbrev pub activities : Db → ℕ → ℕ → ℕ → String → List ℕ
activities db owner start stop kind =
    select (is_within start stop) (map (activity_at kind) (select (is_of_owner owner) db.assets))

abbrev pub to_row : ℕ × ℕ → HeatmapRow
to_row p = record { activity_date = some p.0; count = p.1 }

unfoldable pub get_calendar_heatmap : ℕ → ℕ → ℕ → String → M (List HeatmapRow)
get_calendar_heatmap owner start stop kind =
    statement λ db. ok (map to_row (group_days (activities db owner start stop kind))) db
