-- ===== src/SharedLinks/Access.antt =====
-- Who gets the assets of a link by its key: GetSharedLinkByKey and GetSharedLinkAssets of
-- internal/sharedlinks/service.go.
use immich_go_backend.Base.{
  ℕ, ◌≡◌, refl, sym, subst, inl, inr, String, Bool, true, not, ◌&&◌, ◌||◌, Option, none, some, List,
  arith, ◌=ₛ◌, select, any, Bool-cases,
}
use immich_go_backend.Db.{Asset, SharedLink, Db, Outcome, ok, err, wrap}
use immich_go_backend.Db.Assets.{find, is_null}
use immich_go_backend.Db.Links.{
  has_link_key, same_pair, is_attached, get_shared_link_row_by_key, get_shared_link_asset_rows,
}
use immich_go_backend.Db.Triples.{
  Post, Triple, row-Post, bind-Triple, wrap-Triple, check-Triple, post-Triple, statement-Triple,
}
use immich_go_backend.Db.Rows.{
  All, All-map, All-select, All-sort_by, All-identities, identities, Owns, Owns-holds, any-All,
}
use immich_go_backend.Db.Owned.{find-keys_of}
use immich_go_backend.SharedLinks.{
  BcryptLib, convert_shared_link, or_none, assets_or_none, with_count, is_expired, check_password,
  get_shared_link_by_key, get_shared_link_assets,
}
use immich_go_backend.SharedLinks.Attachments.{Honest, Fits, link_keys}

-- What a link asks of whoever has its key: it has not expired, and a password that is set matches.
abbrev pub fits_password : BcryptLib → Option String → String → Bool
fits_password b none password = true
fits_password b (some hashed) password =
    (hashed =ₛ "") || (not (password =ₛ "") && b.matches hashed password)

abbrev pub opens : BcryptLib → ℕ → String → SharedLink → Bool
opens b now password l = not (is_expired l.expires_at now) && fits_password b l.password password

-- The assets were shown by a link of the database with this key, which the caller could open, and
-- they are its owner's and not deleted.
pub record Granted (b : BcryptLib) (now : ℕ) (key password : String) (db : Db) (rows : List Asset)
    : Type 0 where
  pub link : SharedLink
  pub found : find (has_link_key key) db.links ≡ some link
  pub opened : opens b now password link ≡ true
  pub owned : All (λ (a : Asset). (a.owner_id ≡ link.user_id) × (is_null a.deleted_at ≡ true)) rows

module _ (b : BcryptLib) (now : ℕ) (key password : String) (start : Db)
    (honest : Honest start) where
  -- Only the list of outages changes.
  pub record Same (db : Db) : Type 0 where
    pub assets_kept : db.assets ≡ start.assets
    pub links_kept : db.links ≡ start.links
    pub pairs_kept : db.link_assets ≡ start.link_assets

  free : (db : Db) (later : List Bool) → Same db → Same (record db { outages = later })
  free db later h = record {
    assets_kept = h.assets_kept;
    links_kept = h.links_kept;
    pairs_kept = h.pairs_kept;
  }

  Any : Db → Type 0
  Any db = Unit

  key-Triple :
      Triple Same
        (get_shared_link_row_by_key key)
        (λ l db. Same db × (find (has_link_key key) start.links ≡ some l))
        Any
  unfolding get_shared_link_row_by_key Any
  key-Triple =
      statement-Triple free (λ db h. tt)
        (record {
          run = λ db h.
              row-Post _ _ db (find (has_link_key key) db.links)
                (λ l e. (h, subst (λ ls. find (has_link_key key) ls ≡ some l) h.links_kept e)) tt;
        })

  -- The password checks pass only where the password fits.
  password-Triple :
      (o : Option String)
      → Triple Same
          (check_password b o password)
          (λ u db. Same db × (fits_password b o password ≡ true))
          Any
  unfolding check_password Any
  password-Triple none = record { run = λ db h. (h, refl) }
  password-Triple (some hashed) = elim (Bool-cases (hashed =ₛ "")) [
    | inl e ↦ rw e (record { run = λ db h. (h, refl) })
    | inr e ↦ rw e (
        bind-Triple (check-Triple _ (not (password =ₛ "")) (λ db h. tt)) λ done.
          post-Triple (λ checked db ((h, p), q). (h, rw (p, q) refl))
            (check-Triple _ (b.matches hashed password) (λ db h. tt)))
  ]

  -- The attached assets are the owner's.
  shown :
      (l : SharedLink) (db : Db)
      → Same db
      → find (has_link_key key) start.links ≡ some l
      → (a : Asset) → ((v : ℕ) → Owns v a.id (identities start.assets) → a.owner_id ≡ v)
      → is_attached db l.id a ≡ true
      → (a.owner_id ≡ l.user_id) × (is_null a.deleted_at ≡ true)
  shown l db h found a own q =
      let attached : any (same_pair a.id l.id) db.link_assets ≡ true = ground arith in
      let alive : is_null a.deleted_at ≡ true = ground arith in
      let pairs : any (same_pair a.id l.id) start.link_assets ≡ true =
        subst (λ ps. any (same_pair a.id l.id) ps ≡ true) h.pairs_kept attached in
      (
        own l.user_id (
            any-All (Fits (identities start.assets) (link_keys start.links))
              (Owns l.user_id a.id (identities start.assets)) (same_pair a.id l.id)
              start.link_assets (λ p fits e. of_pair p fits e) honest.attached pairs),
        alive,
      )
    where
      of_pair :
          (p : ℕ × ℕ)
          → Fits (identities start.assets) (link_keys start.links) p
          → same_pair a.id l.id p ≡ true
          → Owns l.user_id a.id (identities start.assets)
      of_pair p fits e =
          let asset : p.0 ≡ a.id = ground arith in
          let link : l.id ≡ p.1 = ground arith in
          subst (λ t. Owns l.user_id t (identities start.assets)) asset
            ((find-keys_of (λ (x : SharedLink). x.id) (λ (x : SharedLink). x.user_id)
                (λ (k : ℕ × ℕ). k.0 ≡ p.1 → Owns k.1 p.0 (identities start.assets))
                (has_link_key key) start.links fits found).0
              link)

  rows-Triple :
      (l : SharedLink)
      → find (has_link_key key) start.links ≡ some l
      → Triple Same
          (get_shared_link_asset_rows l.id)
          (λ rows db.
            All (λ (a : Asset). (a.owner_id ≡ l.user_id) × (is_null a.deleted_at ≡ true)) rows)
          Any
  unfolding get_shared_link_asset_rows Any
  rows-Triple l found =
      statement-Triple free (λ db h. tt)
        (record {
          run = λ db h.
              All-sort_by (λ (a : Asset). (a.owner_id ≡ l.user_id) × (is_null a.deleted_at ≡ true))
                (λ (a : Asset). a.local_date_time) (select (is_attached db l.id) db.assets)
                (All-map _ _ (select (is_attached db l.id) db.assets)
                  (λ (a : Asset) (own, q). shown l db h found a own q)
                  (All-select
                    (λ (a : Asset).
                      (v : ℕ) → Owns v a.id (identities start.assets) → a.owner_id ≡ v)
                    (is_attached db l.id) db.assets
                    (All-identities
                      (λ (i : ℕ × ℕ). (v : ℕ) → Owns v i.0 (identities start.assets) → i.1 ≡ v)
                      db.assets
                      (subst
                        (λ xs.
                          All
                            (λ (i : ℕ × ℕ).
                              (v : ℕ) → Owns v i.0 (identities start.assets) → i.1 ≡ v)
                            (identities xs))
                        (sym h.assets_kept) (Owns-holds (identities start.assets))))));
        })

  or_none-Post :
      {A : Type 0} (o : Outcome (List A))
      → Post (λ r. Same) Same o
      → Post (λ (r : List A). Same) Any (or_none o)
  or_none-Post (ok r db) h = h
  or_none-Post (err e db) h = h

  none-Triple : (id : ℕ) → Triple Same (assets_or_none id) (λ rows. Same) Any
  unfolding assets_or_none get_shared_link_asset_rows
  none-Triple id = record {
    run = λ db k. or_none-Post (get_shared_link_asset_rows id db) (read.run db k);
  }
    where
      read : Triple Same (get_shared_link_asset_rows id) (λ r. Same) Same
      read = statement-Triple free (λ db k. k) (record { run = λ db k. k })

  count-Triple :
      (l : SharedLink) → Triple Same (with_count l) (λ dto db. Same db × (dto.id ≡ l.id)) Any
  unfolding with_count convert_shared_link
  count-Triple l = bind-Triple (none-Triple l.id) λ rows. record { run = λ db h. (h, refl) }

  -- The link whose id a successful GetSharedLinkByKey returns.
  record Opened (id : ℕ) : Type 0 where
    link : SharedLink
    at : id ≡ link.id
    found : find (has_link_key key) start.links ≡ some link
    opened : opens b now password link ≡ true

  key_dto-Triple :
      Triple Same
        (get_shared_link_by_key b now key password)
        (λ dto db. Same db × Opened dto.id)
        Any
  unfolding get_shared_link_by_key Any
  key_dto-Triple = bind-Triple (wrap-Triple _ key-Triple) λ l.
      bind-Triple (check-Triple _ (not (is_expired l.expires_at now)) (λ db h. tt)) λ done. record {
        run = λ db ((h, found), alive).
            (bind-Triple (password-Triple l.password) λ checked. record {
              run = λ next (k, fits).
                  (post-Triple
                      (λ dto final (same, at). (
                        same,
                        record { link = l; at = at; found = found; opened = rw (alive, fits) refl },
                      ))
                      (count-Triple l)).run
                    next k;
            }).run
              db h;
      }

  assets-Triple :
      Triple Same
        (get_shared_link_assets b now key password)
        (λ rows db. Granted b now key password start rows)
        Any
  unfolding get_shared_link_assets
  assets-Triple = bind-Triple key_dto-Triple λ dto. record {
    run = λ db (h, o).
        subst
          (λ t.
            Post (λ (rows : List Asset) final. Granted b now key password start rows) Any
              (wrap "failed to get shared link assets" (get_shared_link_asset_rows t) db))
          (sym o.at)
          ((post-Triple
              (λ rows final owned. record {
                link = o.link;
                found = o.found;
                opened = o.opened;
                owned = owned;
              })
              (wrap-Triple "failed to get shared link assets" (rows-Triple o.link o.found))).run
            db h);
  }

-- Whoever gets assets by a key gets them from a link of the database with that key, which has not
-- expired and whose password, if one is set, the caller gave; and they are assets of the link's owner
-- that are not deleted. The links of the database show assets of their own owners only; any
-- statements may fail.
pub get_shared_link_assets-Granted :
    (b : BcryptLib) (now : ℕ) (key password : String) (db : Db)
    → Honest db
    → Post
        (λ rows final. Granted b now key password db rows)
        (λ final. Unit)
        (get_shared_link_assets b now key password db)
unfolding Any
get_shared_link_assets-Granted b now key password db honest =
    (assets-Triple b now key password db honest).run db
      (record { assets_kept = refl; links_kept = refl; pairs_kept = refl })
