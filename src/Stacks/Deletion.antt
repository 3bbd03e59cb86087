-- ===== src/Stacks/Deletion.antt =====
-- DeleteStack of internal/stacks/service.go: what it leaves of a stack, and when it succeeds.
use immich_go_backend.Base.{
  ℕ, ◌≡◌, refl, sym, subst, ◌∙◌, ◌≢◌, inl, inr, String, Bool, false, not, Option, none, some, List,
  [], ◌∷◌, arith, ◌==◌, ◌||◌, ◌&&◌, select, any, Bool-cases, Option-cases, true,
}
use immich_go_backend.Db.{
  Asset, AssetStack, Db, M, ◌>>=◌, need, UuidLib, Outcome, ok, err, after, wrap, check, statement,
}
use immich_go_backend.Db.Assets.{find, update_where}
use immich_go_backend.Db.Stacks.{
  refers, has_stack_id, get_stack_row, clear_stack_assets, delete_stack_row,
}
use immich_go_backend.Db.Triples.{
  Post, Triple, row-Post, bind-Triple, wrap-Triple, need-Triple, check-Triple, statement-Triple,
}
use immich_go_backend.Db.Rows.{All, Keyed}
use immich_go_backend.Db.Owned.{keys_of}
use immich_go_backend.Stacks.{owned_stack, delete_stack}

-- No stack has the id and no asset refers to it.
pub record Gone (id : ℕ) (db : Db) : Type 0 where
  pub no_stack : any (has_stack_id id) db.stacks ≡ false
  pub no_reference : All (λ (a : Asset). a.stack_id ≢ some id) db.assets

no_stack-select :
    (id : ℕ) (xs : List AssetStack)
    → any (has_stack_id id) (select (λ s. not (s.id == id)) xs) ≡ false
no_stack-select id [] = refl
no_stack-select id (s ∷ xs) = elim (Bool-cases (s.id == id)) [
  | inl e ↦ rw e (no_stack-select id xs)
  | inr e ↦ rw (e, e) (no_stack-select id xs)
]

away : (id : ℕ) (o : Option ℕ) → refers (λ s. s == id) o ≡ false → o ≢ some id
away id none h = λ e. cc
away id (some s) h = λ e. let same : s ≡ id = cc in let other : s ≢ id = ground arith in other same

no_reference-update_where :
    (id now : ℕ) (xs : List Asset)
    → All
        (λ (a : Asset). a.stack_id ≢ some id)
        (update_where
          (λ a. refers (λ s. s == id) a.stack_id)
          (λ a. record a { stack_id = none; updated_at = now })
          xs)
no_reference-update_where id now [] = tt
no_reference-update_where id now (a ∷ xs) = elim (Bool-cases (refers (λ s. s == id) a.stack_id)) [
  | inl e ↦ rw e ((λ q. cc), no_reference-update_where id now xs)
  | inr e ↦ rw e (away id a.stack_id e, no_reference-update_where id now xs)
]

module _ (start : Db) where
  abbrev K : Db → Type 0
  K db = db.stacks ≡ start.stacks

  free : (db : Db) (later : List Bool) → K db → K (record db { outages = later })
  free db later k = k

  stack-Triple : (id : ℕ) → Triple K (get_stack_row id) (λ s. K) K
  unfolding get_stack_row
  stack-Triple id =
      statement-Triple free (λ db k. k)
        (record { run = λ db k. row-Post _ _ db (find (has_stack_id id) db.stacks) (λ s e. k) k })

  clear-Triple : (id : ℕ) → Triple K (clear_stack_assets id) (λ done. K) K
  unfolding clear_stack_assets
  clear-Triple id = statement-Triple free (λ db k. k) (record { run = λ db k. k })

  delete_row-Triple : (id : ℕ) → Triple K (delete_stack_row id) (λ done. Gone id) K
  unfolding delete_stack_row
  delete_row-Triple id =
      statement-Triple free (λ db k. k)
        (record {
          run = λ db k. record {
            no_stack = no_stack-select id db.stacks;
            no_reference = no_reference-update_where id db.clock db.assets;
          };
        })

  parse-Triple :
      {A B : Type 0} {Q : B → Db → Type 0} (message : String) (o : Option A) (f : A → M B)
      → ((a : A) → o ≡ some a → Triple K (f a) Q K)
      → Triple K (need message o >>= f) Q K
  parse-Triple message o f h =
      bind-Triple (need-Triple message o (λ db k. k))
        λ a. record { run = λ db p. (h a p.1).run db p.0 }

  owned-Triple :
      (u : UuidLib) (user_id stack_id : String)
      → Triple K (owned_stack u stack_id user_id) (λ id db. K db × (u.parse stack_id ≡ some id)) K
  unfolding owned_stack
  owned-Triple u user_id stack_id = parse-Triple _ (u.parse stack_id) _ λ id e.
      parse-Triple _ (u.parse user_id) _ λ user f.
        bind-Triple (wrap-Triple _ (stack-Triple id)) λ stack.
          bind-Triple (check-Triple _ _ (λ db k. k)) λ done. record { run = λ db p. (p.0, e) }

-- A stack whose deletion succeeds is gone: no stack has its id and no asset, deleted or not, refers
-- to it. If the deletion fails no stack has changed.
pub delete_stack-Gone :
    (u : UuidLib) (user_id stack_id : String) (id : ℕ) (db : Db)
    → u.parse stack_id ≡ some id
    → Post
        (λ done. Gone id)
        (λ final. final.stacks ≡ db.stacks)
        (delete_stack u user_id stack_id db)
unfolding delete_stack
delete_stack-Gone u user_id stack_id id db parsed =
    (bind-Triple (owned-Triple db u user_id stack_id) λ found. record {
      run = λ next (k, e).
          let same : some found ≡ some id = sym e ∙ parsed in
          let found≡id : found ≡ id = cc in
          (bind-Triple (wrap-Triple _ (clear-Triple db found)) λ done. wrap-Triple _ (
              subst (λ t. Triple (K db) (delete_stack_row found) (λ r. Gone t) (K db)) found≡id
                (delete_row-Triple db found))).run
            next k;
    }).run
      db refl

abbrev pub stack_keys : List AssetStack → List (ℕ × ℕ)
stack_keys = keys_of (λ (s : AssetStack). s.id) (λ (s : AssetStack). s.owner_id)

-- The stack is there and the user owns it.
abbrev pub is_stack_of : Option ℕ → Option ℕ → List AssetStack → Bool
is_stack_of (some user) (some id) xs = any (λ s. s.id == id && s.owner_id == user) xs
is_stack_of (some user) none xs = false
is_stack_of none _ xs = false

abbrev pub is_ok : {A : Type 0} → Outcome A → Bool
is_ok (ok a db) = true
is_ok (err e db) = false

module _ (user id : ℕ) where
  absent_stack :
      (xs : List AssetStack)
      → All (λ (j : ℕ × ℕ). j.0 ≢ id) (stack_keys xs)
      → any (λ s. s.id == id && s.owner_id == user) xs ≡ false
  absent_stack [] h = refl
  absent_stack (x ∷ xs) (h, hs) =
      let miss : (x.id == id) ≡ false = ground arith in rw miss (absent_stack xs hs)

  any-find-none :
      (xs : List AssetStack)
      → find (has_stack_id id) xs ≡ none
      → any (λ s. s.id == id && s.owner_id == user) xs ≡ false
  any-find-none [] e = refl
  any-find-none (x ∷ xs) e = elim (Bool-cases (x.id == id)) [
    | inl q ↦ absurd (let wrong : some x ≡ none = rw q at e in cc)
    | inr q ↦ rw q (any-find-none xs (rw q at e))
  ]

  any-find-some :
      (xs : List AssetStack) (s : AssetStack)
      → Keyed (stack_keys xs)
      → find (has_stack_id id) xs ≡ some s
      → any (λ s. s.id == id && s.owner_id == user) xs ≡ (s.owner_id == user)
  any-find-some [] s k e = cc
  any-find-some (x ∷ xs) s (k, ks) e = elim (Bool-cases (x.id == id)) [
    | inl q ↦
        let same : some x ≡ some s = rw q at e in
        let x≡s : x ≡ s = cc in
        let at : x.id ≡ id = ground arith in
        let rest =
          absent_stack xs (subst (λ t. All (λ (j : ℕ × ℕ). j.0 ≢ t) (stack_keys xs)) at k) in
        rw (q, rest, ← x≡s) (||_false (x.owner_id == user))
    | inr q ↦ rw q (any-find-some xs s ks (rw q at e))
  ]
    where
      ||_false : (b : Bool) → (b || false) ≡ b
      ||_false true = refl
      ||_false false = refl

-- It succeeds exactly where it is allowed, and otherwise the database is as before.
abbrev pub Decides : {A : Type 0} → Db → Bool → Outcome A → Type 0
Decides db true o = is_ok o ≡ true
Decides db false o = (is_ok o ≡ false) × (after o ≡ db)

module _ (u : UuidLib) (user_id stack_id : String) (db : Db) (calm : db.outages ≡ []) where
  decide :
      (user id : ℕ) (o : Option AssetStack)
      → u.parse user_id ≡ some user
      → u.parse stack_id ≡ some id
      → find (has_stack_id id) db.stacks ≡ o
      → Keyed (stack_keys db.stacks)
      → Decides db
          (is_stack_of (u.parse user_id) (u.parse stack_id) db.stacks)
          (delete_stack u user_id stack_id db)
  unfolding delete_stack owned_stack need wrap get_stack_row clear_stack_assets delete_stack_row
      statement check
  decide user id none e f found k =
      let none_own = any-find-none user id db.stacks found in
      rw (e, f, none_own, calm, found) (refl, refl)
  decide user id (some s) e f found k =
      let own = any-find-some user id db.stacks s k found in
      elim (Bool-cases (s.owner_id == user)) [
        | inl q ↦ rw (e, f, own, calm, found, q) refl
        | inr q ↦ rw (e, f, own, calm, found, q) (refl, refl)
      ]

  -- Without outages DeleteStack succeeds exactly when both ids parse and the user owns a stack with
  -- the id, and where it does not nothing changes. The ids of the stacks are distinct.
  pub delete_stack-is_stack_of :
      Keyed (stack_keys db.stacks)
      → Decides db
          (is_stack_of (u.parse user_id) (u.parse stack_id) db.stacks)
          (delete_stack u user_id stack_id db)
  unfolding delete_stack owned_stack need
  delete_stack-is_stack_of k = elim (Option-cases (u.parse stack_id)) [
    | inl f ↦ elim (Option-cases (u.parse user_id)) [
      | inl e ↦ rw (e, f) (refl, refl)
      | inr (user, e) ↦ rw (e, f) (refl, refl)
    ]
    | inr (id, f) ↦ elim (Option-cases (u.parse user_id)) [
      | inl e ↦ rw (e, f) (refl, refl)
      | inr (user, e) ↦ decide user id _ e f refl k
    ]
  ]
