-- ===== src/Stacks/Writes.antt =====
-- The statements of internal/stacks/service.go on assets that were checked to be the user's.
use immich_go_backend.Base.{
  ℕ, ◌≡◌, refl, sym, subst, ◌∙◌, inl, inr, Bool, true, false, ◌&&◌, Option, none, some, List, [],
  ◌∷◌, arith, ◌==◌, select, any, Bool-cases,
}
use immich_go_backend.Db.{Asset, Db}
use immich_go_backend.Db.Assets.{find, update_where, is_null, is_among, is_live, get_asset}
use immich_go_backend.Db.Stacks.{
  refers, is_some, is_member, set_stack, has_stack_id, get_stack_assets, add_assets_to_stack_rows,
  remove_assets_from_stack_rows,
}
use immich_go_backend.Db.Triples.{Triple, row-Post, statement-Triple}
use immich_go_backend.Db.Rows.{
  All, All-map, All-zip, identities, Keyed, Owns, others-update_where, identities-update_where,
  Keyed-Owns, find-All, All-select, All-identities, All-sort_by, any-All,
}
use immich_go_backend.Stacks.Coherence.{owners, Fits, All-update_where, unstacked}
use immich_go_backend.Stacks.Statements.{Safe, free, Checked, Checked-free, Own}

module _ (user : ℕ) (start : Db) where
  abbrev K : Db → Type 0
  K = Safe user start

  among_mine :
      (ids : List ℕ) (b : Asset → Bool) (xs : List Asset)
      → All (λ (id : ℕ). Owns user id (identities xs)) ids
      → All (λ a. (is_among ids a.id && b a) ≡ true → a.owner_id ≡ user) xs
  among_mine ids b [] h = tt
  among_mine ids b (a ∷ xs) h = (
    (λ e.
        any-All (λ (id : ℕ). Owns user id (identities (a ∷ xs))) (a.owner_id ≡ user)
          (λ i. i == a.id) ids (λ id own q. let same : a.id ≡ id = ground arith in own.0 same) h
          (first (is_among ids a.id) (b a) e)),
    among_mine ids b xs (All-map _ _ ids (λ (id : ℕ) own. own.1) h),
  )
    where
      first : (x y : Bool) → (x && y) ≡ true → x ≡ true
      first true y e = refl
      first false y e = e

  -- The rows with one of the ids are the user's.
  rows_mine :
      (ids : List ℕ) (b : Asset → Bool) (db : Db)
      → identities db.assets ≡ identities start.assets
      → All (Own user start) ids
      → All (λ a. (is_among ids a.id && b a) ≡ true → a.owner_id ≡ user) db.assets
  rows_mine ids b db same own =
      among_mine ids b db.assets
        (subst (λ is. All (λ (id : ℕ). Owns user id is) ids) (sym same) own)

  module _ (keyed : Keyed (identities start.assets)) where
    keys :
        (db : Db)
        → K db
        → All (λ (i : ℕ × ℕ). Owns i.1 i.0 (identities start.assets)) (identities db.assets)
    keys db h =
        subst (All (λ (i : ℕ × ℕ). Owns i.1 i.0 (identities start.assets))) (sym h.identities_kept)
          (Keyed-Owns (identities start.assets) keyed)

    pub asset-Triple :
        (P : Db → Type 0) (id : ℕ)
        → ((db : Db) (later : List Bool) → P db → P (record db { outages = later }))
        → ((db : Db) → P db → K db)
        → Triple P (get_asset id) (λ r db. P db × Owns r.owner_id id (identities start.assets)) K
    unfolding get_asset
    asset-Triple P id keep safe = statement-Triple keep safe (record {
      run = λ db h.
          row-Post _ _ db (find (is_live id) db.assets)
            (λ r e.
              let (own, q) =
                find-All (λ (i : ℕ × ℕ). Owns i.1 i.0 (identities start.assets)) (is_live id)
                  db.assets (keys db (safe db h)) e in
              let at : r.id ≡ id = ground arith in
              (h, subst (λ t. Owns r.owner_id t (identities start.assets)) at own))
            (safe db h);
    })

    -- The assets of a stack of the user are the user's.
    pub members-Triple :
        (id : ℕ)
        → Triple
            (Checked user start (λ t. t == id))
            (get_stack_assets id)
            (λ rows db.
              Checked user start (λ t. t == id) db × All (λ (r : Asset). Own user start r.id) rows)
            K
    unfolding get_stack_assets
    members-Triple id =
        statement-Triple (Checked-free user start (λ t. t == id)) (λ db h. h.0)
          (record {
            run = λ db h. (
              h,
              All-sort_by (λ (r : Asset). Own user start r.id) _ _
                  (All-map _ _ (select (is_member id) db.assets)
                    (λ (r : Asset) ((own, mine), q).
                      subst (λ t. Owns t r.id (identities start.assets))
                        (mine (member r.stack_id (is_null r.deleted_at) q)) own)
                    (All-select
                      (λ (a : Asset).
                        Owns a.owner_id a.id (identities start.assets)
                        × (refers (λ t. t == id) a.stack_id ≡ true → a.owner_id ≡ user))
                      (is_member id) db.assets
                      (All-zip _ _ _ db.assets (λ (a : Asset) x y. (x, y))
                        (All-identities _ db.assets (keys db h.0)) h.1.assets_mine))),
            );
          })
      where
        member :
            (o : Option ℕ) (b : Bool) → (is_some o id && b) ≡ true → refers (λ t. t == id) o ≡ true
        member none b e = cc
        member (some s) b e = ground arith

  -- An UPDATE of the stack of the user's assets, to none or to a stack of the user.
  link-Safe :
      (p : Asset → Bool) (to : Option ℕ) (db : Db)
      → All (λ a. p a ≡ true → a.owner_id ≡ user) db.assets
      → All (λ (i : ℕ × ℕ). to ≡ some i.0 → user ≡ i.1) (owners db.stacks)
      → K db
      → K (record db {
        assets =
            update_where p
              (λ a. record (set_stack to db.clock a) { updated_at = db.clock })
              db.assets;
      })
  link-Safe p to db own target k = record {
    others_kept =
        others-update_where user p _ (λ a. refl) (λ a. refl) db.assets own ∙ k.others_kept;
    identities_kept =
        identities-update_where user p _ (λ a. refl) (λ a. refl) db.assets ∙ k.identities_kept;
    stacks_kept = k.stacks_kept;
    keyed = k.keyed;
    coherent =
        All-update_where (λ a. All (Fits a) (owners db.stacks)) p
          (λ a. record (set_stack to db.clock a) { updated_at = db.clock }) db.assets k.coherent
          (All-map _ _ db.assets
            (λ (a : Asset) g e.
              All-map _ _ (owners db.stacks) (λ (i : ℕ × ℕ) fits q. g e ∙ fits q) target)
            own);
  }

  pub remove-Triple :
      (ids : List ℕ)
      → All (Own user start) ids
      → Triple K (remove_assets_from_stack_rows ids) (λ u. K) K
  unfolding remove_assets_from_stack_rows
  remove-Triple ids own =
      statement-Triple (free user start) (λ db h. h)
        (record {
          run = λ db k.
              link-Safe _ none db (rows_mine ids _ db k.identities_kept own)
                (unstacked user (owners db.stacks)) k;
        })

  -- The stack with the id, if any, is the user's.
  abbrev pub Targets : ℕ → Db → Type 0
  Targets id db = K db × All (λ (i : ℕ × ℕ). some id ≡ some i.0 → user ≡ i.1) (owners db.stacks)

  pub add-Triple :
      (id : ℕ) (ids : List ℕ)
      → All (Own user start) ids
      → Triple (Targets id) (add_assets_to_stack_rows id ids) (λ u. K) K
  unfolding add_assets_to_stack_rows
  add-Triple id ids own =
      statement-Triple (λ db later (k, t). (free user start db later k, t)) (λ db h. h.0)
        (record {
          run = λ db (k, t). elim (Bool-cases (any (has_stack_id id) db.stacks)) [
            | inl e ↦ rw e (link-Safe _ (some id) db (rows_mine ids _ db k.identities_kept own) t k)
            | inr e ↦
                elim (Bool-cases (any (λ a. is_among ids a.id && is_null a.deleted_at) db.assets)) [
                  | inl q ↦ rw (e, q) k
                  | inr q ↦ rw (e, q) k
                ]
          ];
        })
