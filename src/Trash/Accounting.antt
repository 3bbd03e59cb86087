-- ===== src/Trash/Accounting.antt =====
-- RestoreAllAssets and EmptyTrash of internal/trash/service.go: what their count says.
pub mod Loop
use immich_go_backend.Base.{
  ℕ, suc, subst, ◌+◌, ◌≡◌, refl, sym, ◌∙◌, ap, ◌≢◌, inl, inr, Bool, true, false, ◌&&◌, ◌||◌, List,
  [], ◌∷◌, arith, ◌==◌, ==_refl, leb, if◌then◌else◌, length, select, any, Bool-cases,
}
use immich_go_backend.Db.{Asset}
use immich_go_backend.Db.Assets.{update_where, insert_by, sort_by, is_trashed_of}
use immich_go_backend.Db.Rows.{All, identities, Keyed, All-insert_by, All-sort_by}

-- How many assets are in the user's trash.
abbrev pub number : ℕ → List Asset → ℕ
number user xs = length (select (is_trashed_of user) xs)

-- The id is that of an asset in the user's trash.
abbrev pub is_hit : ℕ → ℕ → Asset → Bool
is_hit user id a = a.id == id && is_trashed_of user a

abbrev pub HasIn : ℕ → ℕ → List Asset → Type 0
HasIn user id xs = any (is_hit user id) xs ≡ true

abbrev pub Distinct : List Asset → Type 0
Distinct [] = Unit
Distinct (r ∷ rest) = All (λ (q : Asset). q.id ≢ r.id) rest × Distinct rest

module _ (user : ℕ) (c : Asset → Bool) (f : Asset → Asset)
    (matches : (a : Asset) → is_trashed_of user a ≡ true → c a ≡ true)
    (keeps_id : (a : Asset) → (f a).id ≡ a.id)
    (leaves : (a : Asset) → is_trashed_of user (f a) ≡ false) where
  abbrev step : ℕ → List Asset → List Asset
  step id = update_where (λ a. a.id == id && c a) f

  step_absent :
      (id : ℕ) (xs : List Asset) → All (λ (i : ℕ × ℕ). i.0 ≢ id) (identities xs) → step id xs ≡ xs
  step_absent id [] h = refl
  step_absent id (a ∷ xs) (h, hs) =
      let miss : (a.id == id) ≡ false = ground arith in rw (miss, step_absent id xs hs) refl

  any_absent :
      (id : ℕ) (xs : List Asset)
      → All (λ (i : ℕ × ℕ). i.0 ≢ id) (identities xs)
      → any (is_hit user id) xs ≡ false
  any_absent id [] h = refl
  any_absent id (a ∷ xs) (h, hs) =
      let miss : (a.id == id) ≡ false = ground arith in rw miss (any_absent id xs hs)

  -- Handling a row in the trash takes exactly one row out of it.
  pub number-step :
      (id : ℕ) (xs : List Asset)
      → Keyed (identities xs)
      → HasIn user id xs
      → suc (number user (step id xs)) ≡ number user xs
  number-step id [] k h = cc
  number-step id (a ∷ xs) (k, ks) h = elim (Bool-cases (a.id == id)) [
    | inl e ↦
        let at : a.id ≡ id = ground arith in
        let away : All (λ (i : ℕ × ℕ). i.0 ≢ id) (identities xs) = rw (← at) k in
        let t : is_trashed_of user a ≡ true = ground (arith, any_absent id xs away) in
        rw (e, matches a t, t, leaves a, step_absent id xs away) refl
    | inr e ↦ elim (Bool-cases (is_trashed_of user a)) [
      | inl q ↦ rw (e, q) (ap suc (number-step id xs ks (rw e at h)))
      | inr q ↦ rw (e, q) (number-step id xs ks (rw e at h))
    ]
  ]

  pub any-step :
      (id other : ℕ) (xs : List Asset)
      → other ≢ id
      → HasIn user other xs
      → HasIn user other (step id xs)
  any-step id other [] ne h = h
  any-step id other (a ∷ xs) ne h = elim (Bool-cases (a.id == id)) [
    | inl e ↦
        let miss : (a.id == other) ≡ false = ground arith in
        let missed : ((f a).id == other) ≡ false = rw (keeps_id a) miss in
        let rest = any-step id other xs ne (rw miss at h) in
        elim (Bool-cases (c a)) [ inl q ↦ rw (e, q, missed) rest | inr q ↦ rw (e, q, miss) rest ]
    | inr e ↦ elim (Bool-cases (is_hit user other a)) [
      | inl q ↦ rw (e, q) refl
      | inr q ↦ rw (e, q) (any-step id other xs ne (rw q at h))
    ]
  ]

-- The listing names each asset of the trash once.
module _ (key : Asset → ℕ) where
  Distinct-insert_by :
      (x : Asset) (xs : List Asset)
      → All (λ (q : Asset). q.id ≢ x.id) xs
      → Distinct xs
      → Distinct (insert_by key x xs)
  Distinct-insert_by x [] h d = (tt, tt)
  Distinct-insert_by x (y ∷ ys) (h, hs) (d, ds) = elim (Bool-cases (leb (key y) (key x))) [
    | inl e ↦ rw e ((h, hs), (d, ds))
    | inr e ↦ rw e (
      All-insert_by (λ (q : Asset). q.id ≢ y.id) key x ys (λ z. h (sym z)) d,
      Distinct-insert_by x ys hs ds,
    )
  ]

  pub Distinct-sort_by : (xs : List Asset) → Distinct xs → Distinct (sort_by key xs)
  Distinct-sort_by [] d = tt
  Distinct-sort_by (x ∷ xs) (d, ds) =
      Distinct-insert_by x (sort_by key xs) (All-sort_by (λ (q : Asset). q.id ≢ x.id) key xs d)
        (Distinct-sort_by xs ds)

  length-insert_by : (x : Asset) (xs : List Asset) → length (insert_by key x xs) ≡ suc (length xs)
  length-insert_by x [] = refl
  length-insert_by x (y ∷ ys) = elim (Bool-cases (leb (key y) (key x))) [
    | inl e ↦ rw e refl
    | inr e ↦ rw e (ap suc (length-insert_by x ys))
  ]

  pub length-sort_by : (xs : List Asset) → length (sort_by key xs) ≡ length xs
  length-sort_by [] = refl
  length-sort_by (x ∷ xs) = length-insert_by x (sort_by key xs) ∙ ap suc (length-sort_by xs)

All-select :
    (P : ℕ → Type 0) (p : Asset → Bool) (xs : List Asset)
    → All (λ (i : ℕ × ℕ). P i.0) (identities xs)
    → All (λ (q : Asset). P q.id) (select p xs)
All-select P p [] h = tt
All-select P p (x ∷ xs) (h, hs) = elim (Bool-cases (p x)) [
  | inl e ↦ rw e (h, All-select P p xs hs)
  | inr e ↦ rw e (All-select P p xs hs)
]

pub Distinct-select :
    (p : Asset → Bool) (xs : List Asset) → Keyed (identities xs) → Distinct (select p xs)
Distinct-select p [] k = tt
Distinct-select p (x ∷ xs) (k, ks) = elim (Bool-cases (p x)) [
  | inl e ↦ rw e (All-select (λ i. i ≢ x.id) p xs k, Distinct-select p xs ks)
  | inr e ↦ rw e (Distinct-select p xs ks)
]

select_first :
    (p : Asset → Bool) (x : Asset) (xs : List Asset)
    → p x ≡ true
    → select p (x ∷ xs) ≡ x ∷ select p xs
select_first p x xs e = rw e refl

select_later :
    (p : Asset → Bool) (x : Asset) (xs : List Asset) → p x ≡ false → select p (x ∷ xs) ≡ select p xs
select_later p x xs e = rw e refl

any_later :
    (user : ℕ) (y : Asset) (rows xs : List Asset)
    → All (λ (r : Asset). HasIn user r.id xs) rows
    → All (λ (r : Asset). HasIn user r.id (y ∷ xs)) rows
any_later user y [] xs h = tt
any_later user y (r ∷ rows) xs (h, hs) = (ground arith, any_later user y rows xs hs)

pub HasIn-select :
    (user : ℕ) (xs : List Asset)
    → All (λ (r : Asset). HasIn user r.id xs) (select (is_trashed_of user) xs)
HasIn-select user [] = tt
HasIn-select user (x ∷ xs) = elim (Bool-cases (is_trashed_of user x)) [
  | inl e ↦
      let first : HasIn user x.id (x ∷ xs) = rw (==_refl x.id, e) refl in
      subst (All (λ (r : Asset). HasIn user r.id (x ∷ xs)))
        (sym (select_first (is_trashed_of user) x xs e))
        (first, any_later user x _ xs (HasIn-select user xs))
  | inr e ↦
      subst (All (λ (r : Asset). HasIn user r.id (x ∷ xs)))
        (sym (select_later (is_trashed_of user) x xs e))
        (any_later user x _ xs (HasIn-select user xs))
]
