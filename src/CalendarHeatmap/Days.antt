-- ===== src/CalendarHeatmap/Days.antt =====
-- The grouping by day of GetCalendarHeatmap, against counting the activities of each day.
use immich_go_backend.Base.{
  ℕ, ◌+◌, ◌*◌, ◌/◌, ◌<◌, ◌≤◌, ◌≡◌, refl, subst, ◌∙◌, inl, inr, List, [], ◌∷◌, ◌==◌, ltb,
  if◌then◌else◌, select, length, arith, Bool-cases,
}
use immich_go_backend.Db.Activity.{day, is_within, count_day, group_days}
use immich_go_backend.Db.Rows.{All, All-map}

-- How many of the times are within an interval, and on a day.
abbrev pub count_within : ℕ → ℕ → List ℕ → ℕ
count_within start stop ts = length (select (is_within start stop) ts)

abbrev pub on_day : ℕ → List ℕ → ℕ
on_day d ts = count_within (d * day) ((d + 1) * day) ts

-- The count of a day in the groups.
abbrev pub group_of : ℕ → List (ℕ × ℕ) → ℕ
group_of d [] = 0
group_of d ((e, n) ∷ rest) = let later = group_of d rest in if d == e then n else later

abbrev pub After : ℕ → ℕ × ℕ → Type 0
After d p = d < p.0

abbrev pub Ascending : List (ℕ × ℕ) → Type 0
Ascending [] = Unit
Ascending (p ∷ rest) = All (After p.0) rest × Ascending rest

group_of-After : (d : ℕ) (gs : List (ℕ × ℕ)) → All (After d) gs → group_of d gs ≡ 0
group_of-After d [] h = refl
group_of-After d (p ∷ gs) (h, hs) = ground (arith, group_of-After d gs hs)

group_of-count_day :
    (d e : ℕ) (gs : List (ℕ × ℕ))
    → Ascending gs
    → group_of d (count_day e gs) ≡ (if d == e then group_of d gs + 1 else group_of d gs)
group_of-count_day d e [] h = ground arith
group_of-count_day d e ((f, n) ∷ gs) (a, h) = ground (
  arith,
  group_of-count_day d e gs h,
  λ (p : d < f). group_of-After d gs (All-map _ _ gs (λ (q : ℕ × ℕ) (r : f < q.0). omega arith) a),
)

All-count_day :
    (P : ℕ × ℕ → Type 0) (e : ℕ) (gs : List (ℕ × ℕ))
    → ((n : ℕ) → P (e, n))
    → All P gs
    → All P (count_day e gs)
All-count_day P e [] p h = (p 1, tt)
All-count_day P e ((f, n) ∷ gs) p (q, h) = elim (Bool-cases (e == f)) [
  | inl same ↦
      let at : e ≡ f = ground arith in rw same (subst (λ t. P (t, n + 1)) at (p (n + 1)), h)
  | inr other ↦ elim (Bool-cases (ltb e f)) [
    | inl lower ↦ rw (other, lower) (p 1, (q, h))
    | inr higher ↦ rw (other, higher) (q, All-count_day P e gs p h)
  ]
]

Ascending-count_day : (e : ℕ) (gs : List (ℕ × ℕ)) → Ascending gs → Ascending (count_day e gs)
Ascending-count_day e [] h = (tt, tt)
Ascending-count_day e ((f, n) ∷ gs) (a, h) = elim (Bool-cases (e == f)) [
  | inl same ↦ rw same (a, h)
  | inr other ↦ elim (Bool-cases (ltb e f)) [
    | inl lower ↦
        let below : e < f = ground arith in
        rw (other, lower)
          ((below, All-map _ _ gs (λ (q : ℕ × ℕ) (r : f < q.0). omega arith) a), (a, h))
    | inr higher ↦
        let above : f < e = ground arith in
        rw (other, higher) (All-count_day (After f) e gs (λ m. above) a, Ascending-count_day e gs h)
  ]
]

pub group_days-Ascending : (ts : List ℕ) → Ascending (group_days ts)
group_days-Ascending [] = tt
group_days-Ascending (t ∷ ts) =
    Ascending-count_day (t / day) (group_days ts) (group_days-Ascending ts)

within_day : (d t : ℕ) → is_within (d * day) ((d + 1) * day) t ≡ (d == t / day)
within_day d t = ground arith

-- The count of a day is the number of times on it.
pub group_of-group_days : (d : ℕ) (ts : List ℕ) → group_of d (group_days ts) ≡ on_day d ts
group_of-group_days d [] = refl
group_of-group_days d (t ∷ ts) =
    group_of-count_day d (t / day) (group_days ts) (group_days-Ascending ts)
    ∙ ground (arith, within_day d t, group_of-group_days d ts)

-- An interval that is split.
pub count_within_split :
    (a b c : ℕ) (ts : List ℕ)
    → a ≤ b
    → b ≤ c
    → count_within a c ts ≡ count_within a b ts + count_within b c ts
count_within_split a b c [] h k = refl
count_within_split a b c (t ∷ ts) h k = ground (arith, count_within_split a b c ts h k)

-- The activities outside an interval around a day do not count for it.
pub on_day_within :
    (d a b : ℕ) (ts : List ℕ)
    → a ≤ d
    → d < b
    → on_day d (select (is_within (a * day) (b * day)) ts) ≡ on_day d ts
on_day_within d a b [] h k = refl
on_day_within d a b (t ∷ ts) h k = ground (arith, on_day_within d a b ts h k)

abbrev pub AtMost : ℕ → ℕ × ℕ → Type 0
AtMost k p = p.1 ≤ k

AtMost-count_day :
    (k e : ℕ) (gs : List (ℕ × ℕ)) → All (AtMost k) gs → All (AtMost (k + 1)) (count_day e gs)
AtMost-count_day k e [] h = (omega arith, tt)
AtMost-count_day k e ((f, n) ∷ gs) (a, h) =
    let rest : All (AtMost (k + 1)) gs =
      All-map _ _ gs (λ (q : ℕ × ℕ) (r : q.1 ≤ k). omega arith) h in
    elim (Bool-cases (e == f)) [
      | inl same ↦ rw same (omega arith, rest)
      | inr other ↦ elim (Bool-cases (ltb e f)) [
        | inl lower ↦ rw (other, lower) (omega arith, (omega arith, rest))
        | inr higher ↦ rw (other, higher) (omega arith, AtMost-count_day k e gs h)
      ]
    ]

pub group_days-AtMost : (ts : List ℕ) → All (AtMost (length ts)) (group_days ts)
group_days-AtMost [] = tt
group_days-AtMost (t ∷ ts) =
    All-map _ _ (group_days (t ∷ ts)) (λ (q : ℕ × ℕ) (r : q.1 ≤ length ts + 1). omega arith)
      (AtMost-count_day (length ts) (t / day) (group_days ts) (group_days-AtMost ts))
