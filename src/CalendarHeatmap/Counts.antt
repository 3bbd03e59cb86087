-- ===== src/CalendarHeatmap/Counts.antt =====
-- The map of counts of Get in internal/calendarheatmap/service.go, against counting the activities.
use immich_go_backend.Base.{
  ℕ, ◌<◌, ◌≤◌, ◌≡◌, refl, subst, sym, ◌∙◌, inl, inr, Bool, false, Option, none, some, List, [], ◌∷◌,
  map, ◌==◌, ==_refl, any, ◌^◌, String, ltb, if◌then◌else◌, length, arith, Bool-cases, Option-cases,
  Map, empty, put, ◌=ₛ◌, =ₛ_refl, =ₛ_ne,
}
use immich_go_backend.Db.Activity.{HeatmapRow, group_days, to_row}
use immich_go_backend.Db.Rows.{All, All-map}
use immich_go_backend.CalendarHeatmap.{DateLib, add_row, fill_counts, count_at, max_int32}
use immich_go_backend.CalendarHeatmap.Days.{
  on_day, group_of, After, Ascending, AtMost, group_days-Ascending, group_of-group_days,
  group_days-AtMost,
}

-- `time.Time.Format` gives different days different texts.
pub record IsDateLib (lib : DateLib) : Type 0 where
  pub format-inj : (d e : ℕ) → lib.format d ≡ lib.format e → d ≡ e
  pub parse_bound : (s : String) (d : ℕ) → lib.parse s ≡ some d → (363 ≤ d) × (d < 2 ^ 32)

abbrev has_day : ℕ → List (ℕ × ℕ) → Bool
has_day d gs = any (λ p. d == p.0) gs

has_day-After : (d : ℕ) (gs : List (ℕ × ℕ)) → All (After d) gs → has_day d gs ≡ false
has_day-After d [] h = refl
has_day-After d (p ∷ gs) (h, hs) = ground (arith, has_day-After d gs hs)

group_of_absent : (d : ℕ) (gs : List (ℕ × ℕ)) → has_day d gs ≡ false → group_of d gs ≡ 0
group_of_absent d [] h = refl
group_of_absent d (p ∷ gs) h = ground (arith, group_of_absent d gs)

module _ (lib : DateLib) (law : IsDateLib lib) where
  count_at-put :
      (m : Map ℕ) (d e n : ℕ)
      → count_at (put m (lib.format e) n) (lib.format d)
        ≡ (if d == e then n else count_at m (lib.format d))
  count_at-put m d e n = elim (Bool-cases (d == e)) [
    | inl same ↦ let at : d ≡ e = ground arith in rw (at, =ₛ_refl (lib.format e), ==_refl e) refl
    | inr other ↦
        rw
          (
            =ₛ_ne (lib.format d) (lib.format e)
                (λ q. let at : d ≡ e = law.format-inj d e q in absurd (ground arith)),
            other,
          )
          refl
  ]

  -- The map has the counts of the groups, all of which fit.
  fill_counts_groups :
      (gs : List (ℕ × ℕ)) (m : Map ℕ)
      → Ascending gs
      → All (AtMost max_int32) gs
      → (out : Map ℕ) × (fill_counts lib (map to_row gs) m ≡ some out)
        × ((d : ℕ)
            → count_at out (lib.format d)
              ≡ (if has_day d gs then group_of d gs else count_at m (lib.format d)))
  unfolding fill_counts add_row
  fill_counts_groups [] m h k = (m, refl, λ d. refl)
  fill_counts_groups ((e, n) ∷ gs) m (a, h) (b, k) =
      let (out, filled, at) = fill_counts_groups gs (put m (lib.format e) n) h k in
      let fits : ltb max_int32 n ≡ false = ground arith in
      (
        out,
        rw fits filled,
        λ d. at d ∙ elim (Bool-cases (d == e)) [
          | inl same ↦
              let q : d ≡ e = ground arith in
              rw (has_day-After d gs (subst (λ t. All (After t) gs) (sym q) a), same)
                (count_at-put m d e n ∙ rw same refl)
          | inr other ↦ rw (other, count_at-put m d e n, other) refl
        ],
      )

  -- The map that Get builds from the rows of the statement.
  pub fill_counts-group_days :
      (ts : List ℕ)
      → length ts ≤ max_int32
      → (out : Map ℕ) × (fill_counts lib (map to_row (group_days ts)) empty ≡ some out)
        × ((d : ℕ) → count_at out (lib.format d) ≡ on_day d ts)
  fill_counts-group_days ts h =
      let (out, filled, at) = fill_counts_groups (group_days ts) empty (group_days-Ascending ts) (
        All-map _ _ (group_days ts) (λ (q : ℕ × ℕ) (r : q.1 ≤ length ts). omega arith)
          (group_days-AtMost ts)) in
      (out, filled, λ d. at d ∙ sym (group_of_or d) ∙ group_of-group_days d ts)
    where
      group_of_or :
          (d : ℕ)
          → group_of d (group_days ts)
            ≡ (if has_day d (group_days ts) then group_of d (group_days ts) else 0)
      group_of_or d = elim (Bool-cases (has_day d (group_days ts))) [
        | inl e ↦ rw e refl
        | inr e ↦ rw e (group_of_absent d (group_days ts) e)
      ]

-- Every count in the map fits an int32.
abbrev pub Fits32 : Map ℕ → Type 0
Fits32 m = (key : String) → count_at m key ≤ max_int32

count_at-put_key :
    (m : Map ℕ) (k j : String) (n : ℕ)
    → count_at (put m k n) j ≡ (if j =ₛ k then n else count_at m j)
count_at-put_key m k j n = elim (Bool-cases (j =ₛ k)) [ inl e ↦ rw e refl | inr e ↦ rw e refl ]

Fits32-add_row :
    (lib : DateLib) (o : Option ℕ) (n : ℕ) (m out : Map ℕ)
    → add_row lib o n m ≡ some out
    → Fits32 m
    → Fits32 out
unfolding add_row
Fits32-add_row lib none n m out e h = let same : m ≡ out = cc in subst Fits32 same h
Fits32-add_row lib (some d) n m out e h = elim (Bool-cases (ltb max_int32 n)) [
  | inl over ↦ let refused : none ≡ some out = rw over at e in absurd cc
  | inr fits ↦
      let stored : some (put m (lib.format d) n) ≡ some out = rw fits at e in
      let same : put m (lib.format d) n ≡ out = cc in
      subst Fits32 same λ j. rw (count_at-put_key m (lib.format d) j n) (ground (arith, h j))
]

pub Fits32-fill_counts :
    (lib : DateLib) (rows : List HeatmapRow) (m out : Map ℕ)
    → fill_counts lib rows m ≡ some out
    → Fits32 m
    → Fits32 out
unfolding fill_counts
Fits32-fill_counts lib [] m out e h = let same : m ≡ out = cc in subst Fits32 same h
Fits32-fill_counts lib (r ∷ rest) m out e h =
    elim (Option-cases (add_row lib r.activity_date r.count m)) [
      | inl refused ↦ let wrong : none ≡ some out = rw refused at e in absurd cc
      | inr (next, q) ↦
          let later : fill_counts lib rest next ≡ some out = rw q at e in
          Fits32-fill_counts lib rest next out later
            (Fits32-add_row lib r.activity_date r.count m next q h)
    ]
