-- ===== src/Stacks/Coherence.antt =====
-- Which user a stack and the assets in it belong to.
use immich_go_backend.Base.{
  ℕ, ◌≡◌, refl, sym, ◌∙◌, ap, ◌≢◌, inl, inr, Bool, true, false, not, ◌||◌, Option, none, some, List,
  [], ◌∷◌, arith, ◌==◌, select, Bool-cases,
}
use immich_go_backend.Db.{Asset, AssetStack, Db}
use immich_go_backend.Db.Assets.{find, update_where}
use immich_go_backend.Db.Stacks.{refers}
use immich_go_backend.Db.Rows.{All, All-map, All-zip, Keyed, Owns, Keyed-Owns}

-- The ids of the stacks with their owners.
abbrev pub owners : List AssetStack → List (ℕ × ℕ)
owners [] = []
owners (s ∷ rest) = (s.id, s.owner_id) ∷ owners rest

-- If the asset is in the stack, it belongs to the stack's owner.
abbrev pub Fits : Asset → ℕ × ℕ → Type 0
Fits a i = a.stack_id ≡ some i.0 → a.owner_id ≡ i.1

-- Every asset in a stack belongs to the stack's owner.
abbrev pub Coherent : List Asset → List (ℕ × ℕ) → Type 0
Coherent xs is = All (λ (a : Asset). All (Fits a) is) xs

-- The stacks that the test picks, and the assets in them, belong to the user.
pub record Mine (user : ℕ) (p : ℕ → Bool) (db : Db) : Type 0 where
  pub stacks_mine : All (λ (i : ℕ × ℕ). p i.0 ≡ true → i.1 ≡ user) (owners db.stacks)
  pub assets_mine : All (λ (a : Asset). refers p a.stack_id ≡ true → a.owner_id ≡ user) db.assets

refers-weaken :
    (p q : ℕ → Bool) (o : Option ℕ)
    → ((s : ℕ) → q s ≡ true → p s ≡ true)
    → refers q o ≡ true
    → refers p o ≡ true
refers-weaken p q none f h = h
refers-weaken p q (some s) f h = f s h

pub Mine-weaken :
    (user : ℕ) (p q : ℕ → Bool) (db : Db)
    → ((s : ℕ) → q s ≡ true → p s ≡ true)
    → Mine user p db
    → Mine user q db
Mine-weaken user p q db f h = record {
  stacks_mine = All-map _ _ (owners db.stacks) (λ (i : ℕ × ℕ) g e. g (f i.0 e)) h.stacks_mine;
  assets_mine =
      All-map _ _ db.assets (λ (a : Asset) g e. g (refers-weaken p q a.stack_id f e)) h.assets_mine;
}

-- What holds of all stacks holds of the one that a query finds.
pub find-owners :
    (P : ℕ × ℕ → Type 0) (p : AssetStack → Bool) (xs : List AssetStack) {s : AssetStack}
    → All P (owners xs)
    → find p xs ≡ some s
    → P (s.id, s.owner_id) × (p s ≡ true)
find-owners P p [] h e = absurd (cc)
find-owners P p (x ∷ xs) {s} (h, hs) e = elim (Bool-cases (p x)) [
  | inl q ↦ let same : some x ≡ some s = rw q at e in let x≡s : x ≡ s = cc in rw (← x≡s) (h, q)
  | inr q ↦ find-owners P p xs hs (rw q at e)
]

refers_one : (id : ℕ) (o : Option ℕ) → refers (λ t. t == id) o ≡ true → o ≡ some id
refers_one id none h = cc
refers_one id (some s) h = let same : s ≡ id = ground arith in ap some same

-- A stack found by its id, with its owner's assets in it.
pub find-Mine :
    (id : ℕ) (db : Db) (s : AssetStack)
    → Keyed (owners db.stacks)
    → Coherent db.assets (owners db.stacks)
    → find (λ (t : AssetStack). t.id == id) db.stacks ≡ some s
    → Mine s.owner_id (λ t. t == id) db
find-Mine id db s keyed coherent e =
    let (own, q) =
      find-owners (λ (i : ℕ × ℕ). Owns i.1 i.0 (owners db.stacks)) _ db.stacks
        (Keyed-Owns (owners db.stacks) keyed) e in
    let at : s.id ≡ id = ground arith in
    record {
      stacks_mine =
          All-map _ _ (owners db.stacks)
            (λ (i : ℕ × ℕ) g h. let same : i.0 ≡ s.id = ground arith in g same) own;
      assets_mine =
          All-map _ _ db.assets
            (λ (a : Asset) fits h.
              (find-owners (Fits a) _ db.stacks fits e).0
                (refers_one id a.stack_id h ∙ ap some (sym at)))
            coherent;
    }

-- An UPDATE keeps what holds of the rows that it leaves and of those that it writes.
pub All-update_where :
    (Q : Asset → Type 0) (p : Asset → Bool) (f : Asset → Asset) (xs : List Asset)
    → All Q xs
    → All (λ (a : Asset). p a ≡ true → Q (f a)) xs
    → All Q (update_where p f xs)
All-update_where Q p f [] h k = tt
All-update_where Q p f (a ∷ xs) (h, hs) (k, ks) = elim (Bool-cases (p a)) [
  | inl e ↦ rw e (k e, All-update_where Q p f xs hs ks)
  | inr e ↦ rw e (h, All-update_where Q p f xs hs ks)
]

-- The stacks of all other users.
abbrev pub other_stacks : ℕ → List AssetStack → List AssetStack
other_stacks user = select (λ s. not (s.owner_id == user))

-- An asset in no stack fits any.
pub unstacked :
    (owner : ℕ) (is : List (ℕ × ℕ)) → All (λ (i : ℕ × ℕ). none ≡ some i.0 → owner ≡ i.1) is
unstacked owner [] = tt
unstacked owner (i ∷ is) = ((λ e. cc), unstacked owner is)

-- Deleting stacks.
module _ (p : AssetStack → Bool) where
  pub All-owners-select :
      (P : ℕ × ℕ → Type 0) (xs : List AssetStack) → All P (owners xs) → All P (owners (select p xs))
  All-owners-select P [] h = tt
  All-owners-select P (s ∷ xs) (h, hs) = elim (Bool-cases (p s)) [
    | inl e ↦ rw e (h, All-owners-select P xs hs)
    | inr e ↦ rw e (All-owners-select P xs hs)
  ]

  pub Keyed-select : (xs : List AssetStack) → Keyed (owners xs) → Keyed (owners (select p xs))
  Keyed-select [] h = tt
  Keyed-select (s ∷ xs) (h, hs) = elim (Bool-cases (p s)) [
    | inl e ↦ rw e (All-owners-select (λ (j : ℕ × ℕ). j.0 ≢ s.id) xs h, Keyed-select xs hs)
    | inr e ↦ rw e (Keyed-select xs hs)
  ]

pub other_stacks-select :
    (user : ℕ) (p : ℕ → Bool) (xs : List AssetStack)
    → All (λ (i : ℕ × ℕ). p i.0 ≡ true → i.1 ≡ user) (owners xs)
    → other_stacks user (select (λ s. not (p s.id)) xs) ≡ other_stacks user xs
other_stacks-select user p [] h = refl
other_stacks-select user p (s ∷ xs) (h, hs) = elim (Bool-cases (p s.id)) [
  | inl e ↦
      let same : s.owner_id ≡ user = h e in
      let mine : (s.owner_id == user) ≡ true = ground arith in
      rw (e, mine) (other_stacks-select user p xs hs)
  | inr e ↦ elim (Bool-cases (s.owner_id == user)) [
    | inl q ↦ rw (e, q) (other_stacks-select user p xs hs)
    | inr q ↦ rw (e, q) (ap (λ t. s ∷ t) (other_stacks-select user p xs hs))
  ]
]

either : (x y : Bool) {R : Type 0} → (x ≡ true → R) → (y ≡ true → R) → (x || y) ≡ true → R
either true y f g e = f refl
either false y f g e = g e

pub Mine-or :
    (user : ℕ) (p q : ℕ → Bool) (db : Db)
    → Mine user p db
    → Mine user q db
    → Mine user (λ t. p t || q t) db
Mine-or user p q db h k = record {
  stacks_mine =
      All-zip _ _ _ (owners db.stacks) (λ (i : ℕ × ℕ) f g. either (p i.0) (q i.0) f g) h.stacks_mine
        k.stacks_mine;
  assets_mine =
      All-zip _ _ _ db.assets (λ (a : Asset) f g. of_asset a.stack_id f g) h.assets_mine
        k.assets_mine;
}
  where
    of_asset :
        (o : Option ℕ) {R : Type 0}
        → (refers p o ≡ true → R)
        → (refers q o ≡ true → R)
        → refers (λ t. p t || q t) o ≡ true
        → R
    of_asset none f g e = cc
    of_asset (some s) f g e = either (p s) (q s) f g e

refers_never : {R : Type 0} (o : Option ℕ) → refers (λ t. false) o ≡ true → R
refers_never none e = cc
refers_never (some s) e = cc

-- No stack is picked by a test that always fails.
pub Mine-none :
    (user : ℕ) (db : Db)
    → Keyed (owners db.stacks)
    → Coherent db.assets (owners db.stacks)
    → Mine user (λ t. false) db
Mine-none user db keyed coherent = record {
  stacks_mine =
      All-map _ _ (owners db.stacks) (λ (i : ℕ × ℕ) h e. cc) (Keyed-Owns (owners db.stacks) keyed);
  assets_mine = All-map _ _ db.assets (λ (a : Asset) h e. refers_never a.stack_id e) coherent;
}
