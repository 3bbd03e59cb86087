-- ===== src/Db/Rows.antt =====
-- Tables with a primary key: what a query finds, and which rows an UPDATE changes.
use immich_go_backend.Base.{
  ℕ, ◌≡◌, refl, sym, ◌≢◌, inl, inr, Bool, true, not, some, List, [], ◌∷◌, arith, ◌==◌, leb, select,
  Bool-cases, any,
}
use immich_go_backend.Db.{Asset}
use immich_go_backend.Db.Assets.{find, update_where, insert_by, sort_by}

abbrev pub All {ℓ κ} : {A : Type ℓ} → (A → Type κ) → List A → Type κ
All P [] = Unit
All P (x ∷ xs) = P x × All P xs

module _ {ℓ} {A : Type ℓ} where
  pub All-map {κ κ'} :
      (P : A → Type κ) (Q : A → Type κ') (xs : List A) → ((a : A) → P a → Q a) → All P xs → All Q xs
  All-map P Q [] f h = tt
  All-map P Q (x ∷ xs) f (h, hs) = (f x h, All-map P Q xs f hs)

  pub All-zip {κ κ' κ''} :
      (P : A → Type κ) (Q : A → Type κ') (R : A → Type κ'') (xs : List A)
      → ((a : A) → P a → Q a → R a)
      → All P xs
      → All Q xs
      → All R xs
  All-zip P Q R [] f h k = tt
  All-zip P Q R (x ∷ xs) f (h, hs) (k, ks) = (f x h k, All-zip P Q R xs f hs ks)

module _ {κ} {A : Type 0} (P : A → Type κ) where
  pub All-insert_by :
      (key : A → ℕ) (x : A) (xs : List A) → P x → All P xs → All P (insert_by key x xs)
  All-insert_by key x [] h hs = (h, tt)
  All-insert_by key x (y ∷ ys) h (k, ks) = elim (Bool-cases (leb (key y) (key x))) [
    | inl e ↦ rw e (h, (k, ks))
    | inr e ↦ rw e (k, All-insert_by key x ys h ks)
  ]

  pub All-sort_by : (key : A → ℕ) (xs : List A) → All P xs → All P (sort_by key xs)
  All-sort_by key [] h = tt
  All-sort_by key (x ∷ xs) (h, hs) = All-insert_by key x (sort_by key xs) h (All-sort_by key xs hs)

-- The ids of the rows with their owners, which no statement changes.
abbrev pub identities : List Asset → List (ℕ × ℕ)
identities [] = []
identities (a ∷ rest) = (a.id, a.owner_id) ∷ identities rest

-- No two rows have the same id.
abbrev pub Keyed : List (ℕ × ℕ) → Type 0
Keyed [] = Unit
Keyed (i ∷ rest) = All (λ (j : ℕ × ℕ). j.0 ≢ i.0) rest × Keyed rest

-- Every row with the id belongs to the user.
abbrev pub Owns : ℕ → ℕ → List (ℕ × ℕ) → Type 0
Owns user id = All (λ (i : ℕ × ℕ). i.0 ≡ id → i.1 ≡ user)

-- The rows of all other users.
abbrev pub others : ℕ → List Asset → List Asset
others user = select (λ a. not (a.owner_id == user))

pub Owns-All :
    (user id : ℕ) (p : Asset → Bool) (xs : List Asset)
    → ((a : Asset) → p a ≡ true → a.id ≡ id)
    → Owns user id (identities xs)
    → All (λ a. p a ≡ true → a.owner_id ≡ user) xs
Owns-All user id p [] at h = tt
Owns-All user id p (a ∷ rest) at (h, hs) = (λ e. h (at a e), Owns-All user id p rest at hs)

pub All-always :
    (user : ℕ) (p : Asset → Bool) (xs : List Asset)
    → ((a : Asset) → p a ≡ true → a.owner_id ≡ user)
    → All (λ a. p a ≡ true → a.owner_id ≡ user) xs
All-always user p [] at = tt
All-always user p (a ∷ rest) at = (at a, All-always user p rest at)

-- An UPDATE that keeps ids and owners and matches only rows of the user.
module _ (user : ℕ) (p : Asset → Bool) (f : Asset → Asset)
    (keeps_id : (a : Asset) → (f a).id ≡ a.id)
    (keeps_owner : (a : Asset) → (f a).owner_id ≡ a.owner_id) where
  pub others-update_where :
      (xs : List Asset)
      → All (λ a. p a ≡ true → a.owner_id ≡ user) xs
      → others user (update_where p f xs) ≡ others user xs
  others-update_where [] h = refl
  others-update_where (a ∷ rest) (h, hs) = elim (Bool-cases (p a)) [
    | inl e ↦
        let owner : a.owner_id ≡ user = h e in
        let own : (a.owner_id == user) ≡ true = ground arith in
        rw (e, keeps_owner a, own) (others-update_where rest hs)
    | inr e ↦ rw (e, others-update_where rest hs)
  ]

  pub identities-update_where : (xs : List Asset) → identities (update_where p f xs) ≡ identities xs
  identities-update_where [] = refl
  identities-update_where (a ∷ rest) = elim (Bool-cases (p a)) [
    | inl e ↦ rw (e, keeps_id a, keeps_owner a, identities-update_where rest)
    | inr e ↦ rw (e, identities-update_where rest)
  ]

-- A key determines its owner.
pub Keyed-Owns : (is : List (ℕ × ℕ)) → Keyed is → All (λ (i : ℕ × ℕ). Owns i.1 i.0 is) is
Keyed-Owns [] h = tt
Keyed-Owns (i ∷ rest) (h, hs) = (
  (
    λ e. refl,
    All-map (λ (j : ℕ × ℕ). j.0 ≢ i.0) (λ (j : ℕ × ℕ). j.0 ≡ i.0 → j.1 ≡ i.1) rest
        (λ j ne e. absurd (ne e)) h,
  ),
  All-zip (λ (j : ℕ × ℕ). j.0 ≢ i.0) (λ (j : ℕ × ℕ). Owns j.1 j.0 rest)
      (λ (j : ℕ × ℕ). Owns j.1 j.0 (i ∷ rest)) rest (λ j ne own. (λ e. absurd (ne (sym e)), own)) h
      (Keyed-Owns rest hs),
)

-- What holds of all identities holds of the row that a query finds.
module _ {κ} (P : ℕ × ℕ → Type κ) (p : Asset → Bool) where
  pub find-All :
      (xs : List Asset) {r : Asset}
      → All P (identities xs)
      → find p xs ≡ some r
      → P (r.id, r.owner_id) × (p r ≡ true)
  find-All [] h e = absurd (cc)
  find-All (x ∷ xs) {r} (h, hs) e = elim (Bool-cases (p x)) [
    | inl q ↦ let same : some x ≡ some r = rw q at e in let x≡r : x ≡ r = cc in rw (← x≡r) (h, q)
    | inr q ↦ find-All xs hs (rw q at e)
  ]

  pub select-All :
      (xs : List Asset)
      → All P (identities xs)
      → All (λ (r : Asset). P (r.id, r.owner_id) × (p r ≡ true)) (select p xs)
  select-All [] h = tt
  select-All (x ∷ xs) (h, hs) = elim (Bool-cases (p x)) [
    | inl q ↦ rw q ((h, q), select-All xs hs)
    | inr q ↦ rw q (select-All xs hs)
  ]

pub All-select {κ} :
    {A : Type 0} (P : A → Type κ) (p : A → Bool) (xs : List A)
    → All P xs
    → All (λ (x : A). P x × (p x ≡ true)) (select p xs)
All-select P p [] h = tt
All-select P p (x ∷ xs) (h, hs) = elim (Bool-cases (p x)) [
  | inl e ↦ rw e ((h, e), All-select P p xs hs)
  | inr e ↦ rw e (All-select P p xs hs)
]

pub All-identities {κ} :
    (P : ℕ × ℕ → Type κ) (xs : List Asset)
    → All P (identities xs)
    → All (λ (a : Asset). P (a.id, a.owner_id)) xs
All-identities P [] h = tt
All-identities P (a ∷ xs) (h, hs) = (h, All-identities P xs hs)

-- A test that passes for some row of a list.
pub any-All {κ} :
    {A : Type 0} (P : A → Type κ) (R : Type κ) (p : A → Bool) (xs : List A)
    → ((x : A) → P x → p x ≡ true → R)
    → All P xs
    → any p xs ≡ true
    → R
any-All P R p [] f h e = absurd (cc)
any-All P R p (x ∷ xs) f (h, hs) e = elim (Bool-cases (p x)) [
  | inl q ↦ f x h q
  | inr q ↦ any-All P R p xs f hs (rw q at e)
]

-- A row of the table has the owner that its id has.
pub Owns-holds : (is : List (ℕ × ℕ)) → All (λ (i : ℕ × ℕ). (v : ℕ) → Owns v i.0 is → i.1 ≡ v) is
Owns-holds [] = tt
Owns-holds (i ∷ rest) = (
  (λ v own. own.0 refl),
  All-map (λ (j : ℕ × ℕ). (v : ℕ) → Owns v j.0 rest → j.1 ≡ v)
      (λ (j : ℕ × ℕ). (v : ℕ) → Owns v j.0 (i ∷ rest) → j.1 ≡ v) rest (λ j h v own. h v own.1)
      (Owns-holds rest),
)
