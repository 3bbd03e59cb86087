-- ===== src/Downloads/Names.antt =====
-- The loop of DownloadArchive in internal/download/service.go that finds an unused name: it ends.
use Prim.Native.String.{slice, len}
use text.Mathlib.TextLemmas.{append_cancel_left, append_cancel_right}
use immich_go_backend.Base.{
  ℕ, zero, suc, ◌+◌, ◌-◌, ◌<◌, ◌≤◌, ◌≡◌, ◌≢◌, refl, sym, subst, ◌∙◌, inl, inr, String, ◌<>◌, Bool,
  true, false, none, some, List, [], ◌∷◌, arith, ◌==◌, ◌=ₛ◌, =ₛ_ne, eq_iff, if◌then◌else◌, any,
  length, Bool-cases, Option-cases,
}
use immich_go_backend.Downloads.{DownloadLib, numbered, unique_name}

abbrev pub is_used : List String → String → Bool
is_used names path = any (λ t. t =ₛ path) names

-- The names without the first that is `path`.
abbrev without : String → List String → List String
without path [] = []
without path (t ∷ names) = let rest = without path names in if t =ₛ path then names else t ∷ rest

length-without :
    (path : String) (names : List String)
    → is_used names path ≡ true
    → length (without path names) + 1 ≡ length names
length-without path [] h = absurd cc
length-without path (t ∷ names) h = elim (Bool-cases (t =ₛ path)) [
  | inl e ↦ rw e (omega arith)
  | inr e ↦
      let later : is_used names path ≡ true = rw e at h in
      let rest = length-without path names later in rw e (omega arith)
]

is_used-without :
    (path other : String) (names : List String)
    → path ≢ other
    → is_used names other ≡ true
    → is_used (without path names) other ≡ true
is_used-without path other [] ne h = h
is_used-without path other (t ∷ names) ne h = elim (Bool-cases (t =ₛ path)) [
  | inl e ↦
      let same : t ≡ path = (eq_iff t path).0 e in
      let miss : (t =ₛ other) ≡ false = =ₛ_ne t other (λ q. ne (sym same ∙ q)) in
      rw e (rw miss at h)
  | inr e ↦ elim (Bool-cases (t =ₛ other)) [
    | inl q ↦ rw (e, q) refl
    | inr q ↦ rw (e, q) (is_used-without path other names ne (rw q at h))
  ]
]

-- As many different names as are used are no more than the list has.
distinct_used :
    (f : ℕ → String) (n c : ℕ) (names : List String)
    → ((i k : ℕ) → f i ≡ f k → i ≡ k)
    → ((i : ℕ) → c ≤ i → i < c + n → is_used names (f i) ≡ true)
    → n ≤ length names
distinct_used f zero c names inj used = omega arith
distinct_used f (suc n) c names inj used =
    let less = distinct_used f n (c + 1) (without (f c) names) inj (λ i p q.
      is_used-without (f c) (f i) names (λ e. let same = inj c i e in absurd (omega arith))
        (used i (omega arith) (omega arith))) in
    let here = length-without (f c) names (used c (omega arith) (omega arith)) in omega arith

-- `%d` of different numbers are different texts.
pub record IsDownloadLib (lib : DownloadLib) : Type 0 where
  pub itoa-inj : (i k : ℕ) → lib.itoa i ≡ lib.itoa k → i ≡ k

module _ (lib : DownloadLib) where
  numbered-inj :
      IsDownloadLib lib
      → (base : String) (i k : ℕ) → numbered lib base i ≡ numbered lib base k
      → i ≡ k
  unfolding numbered
  numbered-inj law base i k e = law.itoa-inj i k (
      append_cancel_right (lib.itoa i) (lib.itoa k) (lib.ext base)
        (append_cancel_left (slice base 0 (len base - len (lib.ext base)) <> "_") _ _ e))

  -- A round without a result has seen a used name.
  stuck :
      (rounds : ℕ) (names : List String) (base : String) (c : ℕ)
      → unique_name lib rounds names base (c + 1) (numbered lib base c) ≡ none
      → (i : ℕ) → c ≤ i
      → i < c + rounds
      → is_used names (numbered lib base i) ≡ true
  unfolding unique_name
  stuck zero names base c e i p q = absurd (omega arith)
  stuck (suc rounds) names base c e i p q =
      elim (Bool-cases (is_used names (numbered lib base c))) [
        | inl used ↦ elim (Bool-cases (c == i)) [
          | inl same ↦
              let at : c ≡ i = ground arith in
              subst (λ k. is_used names (numbered lib base k) ≡ true) at used
          | inr other ↦
              stuck rounds names base (c + 1) (rw used at e) i (ground arith) (omega arith)
        ]
        | inr fresh ↦ let found : some (numbered lib base c) ≡ none = rw fresh at e in absurd cc
      ]

  -- One round more than the names in use, and one for the name itself, are enough.
  pub unique_name_ends :
      IsDownloadLib lib
      → (names : List String) (base : String)
      → (name : String) × (unique_name lib (length names + 2) names base 1 base ≡ some name)
  unfolding unique_name
  unique_name_ends law names base =
      elim (Option-cases (unique_name lib (length names + 2) names base 1 base)) [
        | inr found ↦ found
        | inl never ↦ absurd (
            too_many (
              step (length names + 1)
                (subst (λ r. unique_name lib r names base 1 base ≡ none) rounds never)))
      ]
    where
      rounds : length names + 2 ≡ suc (length names + 1)
      rounds = omega arith

      step :
          (r : ℕ)
          → unique_name lib (suc r) names base 1 base ≡ none
          → unique_name lib r names base 2 (numbered lib base 1) ≡ none
      step r e = elim (Bool-cases (is_used names base)) [
        | inl used ↦ rw used at e
        | inr fresh ↦ let found : some base ≡ none = rw fresh at e in absurd cc
      ]

      too_many : unique_name lib (length names + 1) names base 2 (numbered lib base 1) ≡ none → ⊥
      too_many e =
          let bound =
            distinct_used (numbered lib base) (length names + 1) 1 names (numbered-inj law base)
              (stuck (length names + 1) names base 1 e) in
          omega arith

  -- What it returns is not in use.
  pub unique_name-fresh :
      (rounds : ℕ) (names : List String) (base : String) (c : ℕ) (path name : String)
      → unique_name lib rounds names base c path ≡ some name
      → is_used names name ≡ false
  unfolding unique_name
  unique_name-fresh zero names base c path name e = cc
  unique_name-fresh (suc rounds) names base c path name e = elim (Bool-cases (is_used names path)) [
    | inl used ↦
        unique_name-fresh rounds names base (c + 1) (numbered lib base c) name (rw used at e)
    | inr fresh ↦
        let found : some path ≡ some name = rw fresh at e in
        let same : path ≡ name = cc in subst (λ t. is_used names t ≡ false) same fresh
  ]
