-- ===== src/Stacks/Checks.antt =====
-- The checks in the operations of internal/stacks/service.go, and what holds after them.
use immich_go_backend.Base.{
  ℕ, ◌≡◌, refl, sym, subst, ◌∙◌, String, Bool, true, false, ◌||◌, Option, some, List, [], ◌∷◌,
  arith, ◌==◌, ==_iff, ==_refl,
}
use immich_go_backend.Db.{Db, M, ◌>>=◌, ◌>>◌, return, wrap, need, check, UuidLib}
use immich_go_backend.Db.Assets.{get_asset, is_among}
use immich_go_backend.Db.Stacks.{get_stack_row}
use immich_go_backend.Db.Triples.{
  Post, Triple, bind-Triple, wrap-Triple, need-Triple, check-Triple, pre-Triple, post-Triple,
  return-Triple,
}
use immich_go_backend.Db.Rows.{All, identities, Keyed, Owns}
use immich_go_backend.Stacks.{owned_stack, own_assets, own_stacks, clear_all}
use immich_go_backend.Stacks.Coherence.{Mine, Mine-weaken, Mine-or}
use immich_go_backend.Stacks.Statements.{
  Safe, free, Checked, Checked-free, Own, stack-Triple, clear-Triple,
}
use immich_go_backend.Stacks.Writes.{asset-Triple}

module _ (u : UuidLib) (user_id : String) (user : ℕ) (parsed : u.parse user_id ≡ some user)
    (start : Db) (keyed : Keyed (identities start.assets)) where
  abbrev K : Db → Type 0
  K = Safe user start

  abbrev pub Kept : (Db → Type 0) → Type 0
  Kept P = (db : Db) (later : List Bool) → P db → P (record db { outages = later })

  module _ {B : Type 0} {P : Db → Type 0} {Q : B → Db → Type 0} (message : String)
      (safe : (db : Db) → P db → K db) where
    -- The user id parses to the user.
    pub user-Triple :
        (f : ℕ → M B) → Triple P (f user) Q K → Triple P (need message (u.parse user_id) >>= f) Q K
    user-Triple f h = bind-Triple (need-Triple message (u.parse user_id) safe) λ a. record {
      run = λ db p.
          let same : some user ≡ some a = sym parsed ∙ p.1 in
          let user≡a : user ≡ a = cc in subst (λ t. Post Q K (f t db)) user≡a (h.run db p.0);
    }

    -- Some other text that has to parse.
    pub parse-Triple :
        {A : Type 0} (o : Option A) (f : A → M B)
        → ((a : A) → Triple P (f a) Q K)
        → Triple P (need message o >>= f) Q K
    parse-Triple o f h =
        bind-Triple (need-Triple message o safe) λ a. pre-Triple (λ db p. p.0) (h a)

  pub fact-Triple :
      {A : Type 0} {P : Db → Type 0} {F : Type 0} {m : M A} {Q : A → Db → Type 0}
      → (F → Triple P m Q K)
      → Triple (λ db. P db × F) m Q K
  fact-Triple h = record { run = λ db p. (h p.1).run db p.0 }

  -- A stack that is found and passes the test of its owner.
  pub checked_stack-Triple :
      {B : Type 0} (P : Db → Type 0) {Q : B → Db → Type 0} (id : ℕ) (message denied : String)
      (f : M B)
      → Kept P
      → ((db : Db) → P db → K db)
      → Triple (λ db. P db × Mine user (λ t. t == id) db) f Q K
      → Triple P
          (wrap message (get_stack_row id) >>= λ stack. check (stack.owner_id == user) denied >> f)
          Q
          K
  checked_stack-Triple P {Q} id message denied f keep safe h =
      bind-Triple (wrap-Triple message (stack-Triple user start P id keep safe)) λ stack.
        bind-Triple (check-Triple denied (stack.owner_id == user) (λ db p. safe db p.0)) λ done.
          record {
            run = λ db p.
                let own : stack.owner_id ≡ user = (==_iff stack.owner_id user).0 p.1 in
                h.run db (p.0.0, subst (λ t. Mine t (λ s. s == id) db) own p.0.1);
          }

  -- An asset that is found and passes the test of its owner.
  pub checked_asset-Triple :
      {B : Type 0} (P : Db → Type 0) {Q : B → Db → Type 0} (id : ℕ) (message denied : String)
      (f : M B)
      → Kept P
      → ((db : Db) → P db → K db)
      → (Own user start id → Triple P f Q K)
      → Triple P
          (wrap message (get_asset id) >>= λ asset. check (asset.owner_id == user) denied >> f)
          Q
          K
  checked_asset-Triple P {Q} id message denied f keep safe h =
      bind-Triple (wrap-Triple message (asset-Triple user start keyed P id keep safe)) λ asset.
        bind-Triple (check-Triple denied (asset.owner_id == user) (λ db p. safe db p.0)) λ done.
          record {
            run = λ db p.
                let own : asset.owner_id ≡ user = (==_iff asset.owner_id user).0 p.1 in
                (h (subst (λ t. Owns t id (identities start.assets)) own p.0.1)).run db p.0.0;
          }

  pub owned_stack-Triple :
      (stack_id : String)
      → Triple K (owned_stack u stack_id user_id) (λ id. Checked user start (λ t. t == id)) K
  unfolding owned_stack
  owned_stack-Triple stack_id =
      parse-Triple _ (λ db k. k) (u.parse stack_id) _
        λ id.
          user-Triple _ (λ db k. k) _
            (checked_stack-Triple K id _ _ (return id) (free user start) (λ db k. k)
              (record { run = λ db p. p }))

  pub own_stacks-Triple :
      (m : ℕ → Bool) (ids : List ℕ)
      → Triple
          (Checked user start m)
          (own_stacks user ids)
          (λ done. Checked user start (λ t. m t || is_among ids t))
          K
  unfolding own_stacks
  own_stacks-Triple m [] = record {
    run = λ db (k, h). (k, Mine-weaken user m _ db (λ s e. right (m s) e) h);
  }
    where
      right : (b : Bool) → (b || false) ≡ true → b ≡ true
      right true e = refl
      right false e = e
  own_stacks-Triple m (id ∷ ids) =
      checked_stack-Triple (Checked user start m) id _ _ (own_stacks user ids)
        (Checked-free user start m) (λ db h. h.0)
        (post-Triple
          (λ done db (k, h). (
            k,
            Mine-weaken user (λ t. (m t || t == id) || is_among ids t)
                (λ t. m t || is_among (id ∷ ids) t) db (λ t e. ground arith) h,
          ))
          (pre-Triple (λ db ((k, h), g). (k, Mine-or user m (λ t. t == id) db h g))
            (own_stacks-Triple (λ t. m t || t == id) ids)))

  pub clear_all-Triple :
      (m : ℕ → Bool) (ids : List ℕ)
      → All (λ (id : ℕ). m id ≡ true) ids
      → Triple (Checked user start m) (clear_all ids) (λ done. Checked user start m) K
  unfolding clear_all
  clear_all-Triple m [] h = return-Triple tt
  clear_all-Triple m (id ∷ ids) (h, hs) =
      bind-Triple (wrap-Triple _ (clear-Triple user start m id h)) λ done. clear_all-Triple m ids hs

  -- The assets of a list that pass the test.
  pub own_assets-Triple :
      (P : Db → Type 0) (ids : List ℕ)
      → Kept P
      → ((db : Db) → P db → K db)
      → Triple P (own_assets user ids) (λ done db. P db × All (Own user start) ids) K
  unfolding own_assets
  own_assets-Triple P [] keep safe = record { run = λ db p. (p, tt) }
  own_assets-Triple P (id ∷ ids) keep safe =
      checked_asset-Triple P id _ _ (own_assets user ids) keep safe
        λ own. post-Triple (λ done db (p, h). (p, (own, h))) (own_assets-Triple P ids keep safe)

  pub among :
      (m : ℕ → Bool) (ids : List ℕ)
      → ((t : ℕ) → is_among ids t ≡ true → m t ≡ true)
      → All (λ (id : ℕ). m id ≡ true) ids
  among m [] h = tt
  among m (id ∷ ids) h = (h id (rw (==_refl id) refl), among m ids (λ t e. h t (ground arith)))
