-- ===== src/SharedLinks/Attachments.antt =====
-- Whose assets the links of internal/sharedlinks/service.go show, and what its statements keep.
use immich_go_backend.Base.{
  ℕ, ◌≡◌, refl, sym, subst, ap, ◌≢◌, inl, inr, Bool, true, false, not, ◌||◌, List, [], ◌∷◌, arith,
  ◌==◌, select, any, Bool-cases,
}
use immich_go_backend.Db.{SharedLink, Db}
use immich_go_backend.Db.Assets.{find}
use immich_go_backend.Db.Links.{
  has_link_id, is_owned_live, get_asset_by_id_and_user, get_shared_link_row, get_shared_link_rows,
  get_shared_link_asset_rows,
}
use immich_go_backend.Db.Triples.{Triple, row-Post, statement-Triple}
use immich_go_backend.Db.Rows.{All, identities, Keyed, Owns, Keyed-Owns, find-All}
use immich_go_backend.Db.Owned.{keys_of, rows_but, find-Owns, find-holds}

abbrev pub link_keys : List SharedLink → List (ℕ × ℕ)
link_keys = keys_of (λ (l : SharedLink). l.id) (λ (l : SharedLink). l.user_id)

abbrev pub links_but : ℕ → List SharedLink → List SharedLink
links_but = rows_but (λ (l : SharedLink). l.id) (λ (l : SharedLink). l.user_id)

-- The attached asset belongs to the owner of the link.
abbrev pub Fits : List (ℕ × ℕ) → List (ℕ × ℕ) → ℕ × ℕ → Type 0
Fits assets links p = All (λ (l : ℕ × ℕ). l.0 ≡ p.1 → Owns l.1 p.0 assets) links

-- The link of the attachment is there.
abbrev pub IsLinked : List (ℕ × ℕ) → ℕ × ℕ → Type 0
IsLinked links p = any (λ (l : ℕ × ℕ). l.0 == p.1) links ≡ true

-- Every link shows assets of its own owner only; the ids of the links are distinct, and every
-- attachment is to a link that is there.
pub record Honest (db : Db) : Type 0 where
  pub keyed : Keyed (link_keys db.links)
  pub attached : All (Fits (identities db.assets) (link_keys db.links)) db.link_assets
  pub linked : All (IsLinked (link_keys db.links)) db.link_assets

-- An attachment to a link of another user.
abbrev pub is_foreign : ℕ → List SharedLink → ℕ × ℕ → Bool
is_foreign user links p = any (has_link_id p.1) (links_but user links)

-- Since `start` no asset has changed, no link of another user and no attachment to one: none has
-- gone, none has come.
pub record Safe (user : ℕ) (start db : Db) : Type 0 where
  pub assets_kept : db.assets ≡ start.assets
  pub others_kept : links_but user db.links ≡ links_but user start.links
  pub pairs_kept :
      select (is_foreign user start.links) db.link_assets
      ≡ select (is_foreign user start.links) start.link_assets
  pub honest : Honest db

-- A link of the user is not among those of the others.
mine_absent :
    (user id : ℕ) (xs : List SharedLink)
    → Owns user id (link_keys xs)
    → any (has_link_id id) (links_but user xs) ≡ false
mine_absent user id [] h = refl
mine_absent user id (x ∷ xs) (h, hs) = elim (Bool-cases (x.user_id == user)) [
  | inl e ↦ rw e (mine_absent user id xs hs)
  | inr e ↦ elim (Bool-cases (x.id == id)) [
    | inl q ↦
        let at : x.id ≡ id = ground arith in
        let same : x.user_id ≡ user = h at in
        let other : x.user_id ≢ user = ground arith in absurd (other same)
    | inr q ↦ rw (e, q) (mine_absent user id xs hs)
  ]
]

-- A deletion that spares what a query asks for does not change its result.
pub select-select :
    (f keep : ℕ × ℕ → Bool) (xs : List (ℕ × ℕ))
    → ((p : ℕ × ℕ) → f p ≡ true → keep p ≡ true)
    → select f (select keep xs) ≡ select f xs
select-select f keep [] h = refl
select-select f keep (p ∷ xs) h = elim (Bool-cases (f p)) [
  | inl e ↦ let k : keep p ≡ true = h p e in rw (k, e) (ap (λ t. p ∷ t) (select-select f keep xs h))
  | inr e ↦ elim (Bool-cases (keep p)) [
    | inl k ↦ rw (k, e) (select-select f keep xs h)
    | inr k ↦ rw (k, e) (select-select f keep xs h)
  ]
]

pub any-link_keys :
    (id : ℕ) (xs : List SharedLink)
    → any (has_link_id id) xs ≡ any (λ (l : ℕ × ℕ). l.0 == id) (link_keys xs)
any-link_keys id [] = refl
any-link_keys id (x ∷ xs) = ap (λ b. (x.id == id) || b) (any-link_keys id xs)

pub any-select :
    (id other : ℕ) (xs : List SharedLink)
    → other ≢ id
    → any (λ (l : ℕ × ℕ). l.0 == other) (link_keys xs) ≡ true
    → any (λ (l : ℕ × ℕ). l.0 == other) (link_keys (select (λ l. not (l.id == id)) xs)) ≡ true
any-select id other [] ne h = h
any-select id other (x ∷ xs) ne h = elim (Bool-cases (x.id == id)) [
  | inl e ↦
      let miss : (x.id == other) ≡ false = ground arith in
      rw e (any-select id other xs ne (rw miss at h))
  | inr e ↦ elim (Bool-cases (x.id == other)) [
    | inl q ↦ rw (e, q) refl
    | inr q ↦ rw (e, q) (any-select id other xs ne (rw q at h))
  ]
]

module _ (user : ℕ) (start : Db) where
  abbrev K : Db → Type 0
  K = Safe user start

  pub free : (db : Db) (later : List Bool) → K db → K (record db { outages = later })
  free db later h = record {
    assets_kept = h.assets_kept;
    others_kept = h.others_kept;
    pairs_kept = h.pairs_kept;
    honest = record {
      keyed = h.honest.keyed;
      attached = h.honest.attached;
      linked = h.honest.linked;
    };
  }

  -- The link, if it is there, is the user's.
  abbrev pub WithLink : ℕ → Db → Type 0
  WithLink id db = K db × Owns user id (link_keys db.links)

  pub WithLink-free :
      (id : ℕ) (db : Db) (later : List Bool)
      → WithLink id db
      → WithLink id (record db { outages = later })
  WithLink-free id db later (h, o) = (free db later h, o)

  -- No attachment to a link of the user is one to a link of another.
  pub WithLink-is_foreign :
      (id : ℕ) (db : Db)
      → WithLink id db
      → (p : ℕ × ℕ) → is_foreign user start.links p ≡ true
      → p.1 ≢ id
  WithLink-is_foreign id db (k, o) p f e =
      let away : any (has_link_id p.1) (links_but user db.links) ≡ false =
        rw e (mine_absent user id db.links o) in
      let same : is_foreign user start.links p ≡ false =
        subst (λ xs. any (has_link_id p.1) xs ≡ false) k.others_kept away in
      absurd cc

  -- The user owns the asset.
  abbrev pub Own : ℕ → Type 0
  Own id = Owns user id (identities start.assets)

  pub link-Triple :
      (id : ℕ)
      → Triple K
          (get_shared_link_row id)
          (λ l db. K db × (Owns l.user_id id (link_keys db.links) × (l.id ≡ id)))
          K
  unfolding get_shared_link_row
  link-Triple id =
      statement-Triple free (λ db k. k)
        (record {
          run = λ db k.
              row-Post _ _ db (find (has_link_id id) db.links)
                (λ l e. (
                  k,
                  (
                    find-Owns (λ (x : SharedLink). x.id) (λ (x : SharedLink). x.user_id) id db.links
                        l k.honest.keyed e,
                    at l (find-holds (has_link_id id) db.links e),
                  ),
                ))
                k;
        })
    where
      at : (l : SharedLink) → (l.id == id) ≡ true → l.id ≡ id
      at l h = ground arith

  pub rows-Triple :
      (P : Db → Type 0) (id : ℕ)
      → ((db : Db) (later : List Bool) → P db → P (record db { outages = later }))
      → Triple P (get_shared_link_asset_rows id) (λ rows. P) P
  unfolding get_shared_link_asset_rows
  rows-Triple P id keep = statement-Triple keep (λ db p. p) (record { run = λ db p. p })

  pub list-Triple : (owner : ℕ) → Triple K (get_shared_link_rows owner) (λ rows. K) K
  unfolding get_shared_link_rows
  list-Triple owner = statement-Triple free (λ db k. k) (record { run = λ db k. k })

  -- The query by asset and owner.
  pub asset_query-Triple :
      (link asset : ℕ)
      → Keyed (identities start.assets)
      → Triple
          (WithLink link)
          (get_asset_by_id_and_user asset user)
          (λ r db. WithLink link db × Own asset)
          (WithLink link)
  unfolding get_asset_by_id_and_user
  asset_query-Triple link asset keyed =
      statement-Triple (WithLink-free link) (λ db k. k)
        (record {
          run = λ db k.
              row-Post _ _ db (find (is_owned_live asset user) db.assets)
                (λ r e.
                  let (own, q) =
                    find-All (λ (i : ℕ × ℕ). Owns i.1 i.0 (identities start.assets))
                      (is_owned_live asset user) db.assets
                      (subst
                        (λ xs.
                          All (λ (i : ℕ × ℕ). Owns i.1 i.0 (identities start.assets))
                            (identities xs))
                        (sym k.0.assets_kept) (Keyed-Owns (identities start.assets) keyed))
                      e in
                  let at : r.id ≡ asset = ground arith in
                  let mine : r.owner_id ≡ user = ground arith in (k, rw (← at, ← mine) own))
                k;
        })
