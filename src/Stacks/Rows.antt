-- ===== src/Stacks/Rows.antt =====
-- The statements of internal/stacks/service.go that write the table of stacks.
use immich_go_backend.Base.{
  ℕ, ◌≡◌, refl, sym, subst, ◌∙◌, ◌≢◌, inl, inr, Bool, true, false, Option, none, some, List, [],
  ◌∷◌, arith, ◌==◌, ==_refl, any, Bool-cases,
}
use immich_go_backend.Db.{Asset, AssetStack, Db}
use immich_go_backend.Db.Assets.{find, update_where}
use immich_go_backend.Db.Stacks.{
  has_stack_id, insert_stack, set_primary, write_primary, create_stack_row,
  update_stack_primary_asset,
}
use immich_go_backend.Db.Triples.{Post, Triple, statement-Triple}
use immich_go_backend.Db.Rows.{All, All-map, All-zip, Keyed}
use immich_go_backend.Stacks.Coherence.{owners, Coherent, other_stacks}
use immich_go_backend.Stacks.Statements.{Safe, free, Checked, Checked-free}
use immich_go_backend.Stacks.Writes.{Targets}

module _ (user : ℕ) (start : Db) where
  abbrev K : Db → Type 0
  K = Safe user start

  -- A new stack, with an id that no asset refers to.
  abbrev pub Unused : ℕ → Db → Type 0
  Unused id db = All (λ (a : Asset). a.stack_id ≢ some id) db.assets

  absent_id :
      (id : ℕ) (xs : List AssetStack)
      → any (has_stack_id id) xs ≡ false
      → All (λ (j : ℕ × ℕ). j.0 ≢ id) (owners xs)
  absent_id id [] h = tt
  absent_id id (s ∷ xs) h = elim (Bool-cases (s.id == id)) [
    | inl e ↦ absurd (ground arith)
    | inr e ↦ ((λ q. ground arith), absent_id id xs (rw e at h))
  ]

  insert-Post :
      (allowed : Bool) (id primary : ℕ) (db : Db)
      → any (has_stack_id id) db.stacks ≡ false
      → K db
      → Unused id db
      → Post
          (λ (s : AssetStack). Targets user start s.id)
          K
          (insert_stack allowed
            (record { id = id; primary_asset_id = primary; owner_id = user })
            db)
  insert-Post false id primary db e k t = k
  insert-Post true id primary db e k t =
      let away = absent_id id db.stacks e in
      (
        record {
          others_kept = k.others_kept;
          identities_kept = k.identities_kept;
          stacks_kept = rw (==_refl user) k.stacks_kept;
          keyed = (away, k.keyed);
          coherent =
              All-zip _ _ _ db.assets (λ (a : Asset) fits ne. ((λ q. absurd (ne q)), fits))
                k.coherent t;
        },
        (
          (λ q. refl),
          All-map _ _ (owners db.stacks)
              (λ (i : ℕ × ℕ) ne q. let same : i.0 ≡ id = cc in absurd (ne same)) away,
        ),
      )

  pub create-Triple :
      (id primary : ℕ)
      → Triple
          (λ db. K db × Unused id db)
          (create_stack_row id primary user)
          (λ s. Targets user start s.id)
          K
  unfolding create_stack_row
  create-Triple id primary =
      statement-Triple (λ db later (k, t). (free user start db later k, t)) (λ db h. h.0)
        (record {
          run = λ db (k, t). elim (Bool-cases (any (has_stack_id id) db.stacks)) [
            | inl e ↦ rw e k
            | inr e ↦ insert-Post _ id primary db e k t
          ];
        })

  owners-update_where :
      (id primary : ℕ) (xs : List AssetStack)
      → owners (update_where (has_stack_id id) (set_primary primary) xs) ≡ owners xs
  owners-update_where id primary [] = refl
  owners-update_where id primary (s ∷ xs) = elim (Bool-cases (s.id == id)) [
    | inl e ↦ rw (e, owners-update_where id primary xs) refl
    | inr e ↦ rw (e, owners-update_where id primary xs) refl
  ]

  other_stacks-update_where :
      (id primary : ℕ) (xs : List AssetStack)
      → All (λ (i : ℕ × ℕ). (i.0 == id) ≡ true → i.1 ≡ user) (owners xs)
      → other_stacks user (update_where (has_stack_id id) (set_primary primary) xs)
        ≡ other_stacks user xs
  other_stacks-update_where id primary [] h = refl
  other_stacks-update_where id primary (s ∷ xs) (h, hs) = elim (Bool-cases (s.id == id)) [
    | inl e ↦
        let same : s.owner_id ≡ user = h e in
        let mine : (s.owner_id == user) ≡ true = ground arith in
        rw (e, mine) (other_stacks-update_where id primary xs hs)
    | inr e ↦ rw (e, other_stacks-update_where id primary xs hs) refl
  ]

  write-Post :
      (allowed : Bool) (id primary : ℕ) (found : Option AssetStack) (db : Db)
      → Checked user start (λ t. t == id) db
      → Post (λ (s : AssetStack). K) K (write_primary allowed id primary found db)
  write-Post allowed id primary none db (k, m) = k
  write-Post false id primary (some s) db (k, m) = k
  write-Post true id primary (some s) db (k, m) =
      let same = sym (owners-update_where id primary db.stacks) in
      record {
        others_kept = k.others_kept;
        identities_kept = k.identities_kept;
        stacks_kept = other_stacks-update_where id primary db.stacks m.stacks_mine ∙ k.stacks_kept;
        keyed = subst Keyed same k.keyed;
        coherent = subst (Coherent db.assets) same k.coherent;
      }

  pub primary-Triple :
      (id primary : ℕ)
      → Triple
          (Checked user start (λ t. t == id))
          (update_stack_primary_asset id primary)
          (λ s. K)
          K
  unfolding update_stack_primary_asset
  primary-Triple id primary =
      statement-Triple (Checked-free user start (λ t. t == id)) (λ db h. h.0)
        (record { run = λ db h. write-Post _ id primary (find (has_stack_id id) db.stacks) db h })
