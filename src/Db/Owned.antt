-- ===== src/Db/Owned.antt =====
-- Tables whose rows have an id and an owner: what a query finds, and which rows a statement changes.
use immich_go_backend.Base.{
  ℕ, ◌≡◌, refl, ap, ◌≢◌, inl, inr, Bool, true, false, not, some, List, [], ◌∷◌, arith, ◌==◌, select,
  any, Bool-cases,
}
use immich_go_backend.Db.Assets.{find, update_where}
use immich_go_backend.Db.Rows.{All, Keyed, Owns, Keyed-Owns}

module _ {R : Type 0} (id_of owner_of : R → ℕ) where
  -- The ids of the rows with their owners.
  abbrev pub keys_of : List R → List (ℕ × ℕ)
  keys_of [] = []
  keys_of (r ∷ rest) = (id_of r, owner_of r) ∷ keys_of rest

  abbrev pub rows_but : ℕ → List R → List R
  rows_but user = select (λ r. not (owner_of r == user))

  pub find-keys_of :
      (P : ℕ × ℕ → Type 0) (p : R → Bool) (xs : List R) {r : R}
      → All P (keys_of xs)
      → find p xs ≡ some r
      → P (id_of r, owner_of r) × (p r ≡ true)
  find-keys_of P p [] h e = absurd (cc)
  find-keys_of P p (x ∷ xs) {r} (h, hs) e = elim (Bool-cases (p x)) [
    | inl q ↦ let same : some x ≡ some r = rw q at e in let x≡r : x ≡ r = cc in rw (← x≡r) (h, q)
    | inr q ↦ find-keys_of P p xs hs (rw q at e)
  ]

  -- A row that is found by its id determines the owner of the id.
  pub find-Owns :
      (id : ℕ) (xs : List R) (r : R)
      → Keyed (keys_of xs)
      → find (λ x. id_of x == id) xs ≡ some r
      → Owns (owner_of r) id (keys_of xs)
  find-Owns id xs r k e =
      let (own, q) =
        find-keys_of (λ (i : ℕ × ℕ). Owns i.1 i.0 (keys_of xs)) _ xs (Keyed-Owns (keys_of xs) k)
          e in
      let at : id_of r ≡ id = ground arith in rw (← at) own

  pub All-keys_of-select :
      (P : ℕ × ℕ → Type 0) (p : R → Bool) (xs : List R)
      → All P (keys_of xs)
      → All P (keys_of (select p xs))
  All-keys_of-select P p [] h = tt
  All-keys_of-select P p (x ∷ xs) (h, hs) = elim (Bool-cases (p x)) [
    | inl e ↦ rw e (h, All-keys_of-select P p xs hs)
    | inr e ↦ rw e (All-keys_of-select P p xs hs)
  ]

  pub Keyed-select :
      (p : R → Bool) (xs : List R) → Keyed (keys_of xs) → Keyed (keys_of (select p xs))
  Keyed-select p [] h = tt
  Keyed-select p (x ∷ xs) (h, hs) = elim (Bool-cases (p x)) [
    | inl e ↦ rw e (All-keys_of-select (λ (j : ℕ × ℕ). j.0 ≢ id_of x) p xs h, Keyed-select p xs hs)
    | inr e ↦ rw e (Keyed-select p xs hs)
  ]

  -- DELETE and UPDATE by an id of the user.
  module _ (user id : ℕ) where
    pub rows_but-select :
        (xs : List R)
        → Owns user id (keys_of xs)
        → rows_but user (select (λ r. not (id_of r == id)) xs) ≡ rows_but user xs
    rows_but-select [] h = refl
    rows_but-select (x ∷ xs) (h, hs) = elim (Bool-cases (id_of x == id)) [
      | inl e ↦
          let at : id_of x ≡ id = ground arith in
          let same : owner_of x ≡ user = h at in
          let mine : (owner_of x == user) ≡ true = ground arith in
          rw (e, mine) (rows_but-select xs hs)
      | inr e ↦ elim (Bool-cases (owner_of x == user)) [
        | inl q ↦ rw (e, q) (rows_but-select xs hs)
        | inr q ↦ rw (e, q) (ap (λ t. x ∷ t) (rows_but-select xs hs))
      ]
    ]

    module _ (f : R → R) (keeps_id : (r : R) → id_of (f r) ≡ id_of r)
        (keeps_owner : (r : R) → owner_of (f r) ≡ owner_of r) where
      pub keys_of-update_where :
          (p : R → Bool) (xs : List R) → keys_of (update_where p f xs) ≡ keys_of xs
      keys_of-update_where p [] = refl
      keys_of-update_where p (x ∷ xs) = elim (Bool-cases (p x)) [
        | inl e ↦ rw (e, keeps_id x, keeps_owner x, keys_of-update_where p xs) refl
        | inr e ↦ rw (e, keys_of-update_where p xs) refl
      ]

      pub rows_but-update_where :
          (xs : List R)
          → Owns user id (keys_of xs)
          → rows_but user (update_where (λ r. id_of r == id) f xs) ≡ rows_but user xs
      rows_but-update_where [] h = refl
      rows_but-update_where (x ∷ xs) (h, hs) = elim (Bool-cases (id_of x == id)) [
        | inl e ↦
            let at : id_of x ≡ id = ground arith in
            let same : owner_of x ≡ user = h at in
            let mine : (owner_of x == user) ≡ true = ground arith in
            rw (e, keeps_owner x, mine) (rows_but-update_where xs hs)
        | inr e ↦ rw (e, rows_but-update_where xs hs) refl
      ]

  -- A test by id that fails for every row.
  pub absent_id :
      (id : ℕ) (xs : List R)
      → any (λ r. id_of r == id) xs ≡ false
      → All (λ (j : ℕ × ℕ). j.0 ≢ id) (keys_of xs)
  absent_id id [] h = tt
  absent_id id (x ∷ xs) h = elim (Bool-cases (id_of x == id)) [
    | inl e ↦ absurd (ground arith)
    | inr e ↦ (ground arith, absent_id id xs (rw e at h))
  ]

pub find-holds : {R : Type 0} (p : R → Bool) (xs : List R) {r : R} → find p xs ≡ some r → p r ≡ true
find-holds p [] e = cc
find-holds p (x ∷ xs) {r} e = elim (Bool-cases (p x)) [
  | inl q ↦ let same : some x ≡ some r = rw q at e in let x≡r : x ≡ r = cc in rw (← x≡r) q
  | inr q ↦ find-holds p xs (rw q at e)
]
