-- ===== src/SharedLinks/Updates.antt =====
-- What UpdateSharedLink of internal/sharedlinks/service.go cannot take from a link.
use immich_go_backend.Base.{
  ℕ, ◌≡◌, refl, ◌∙◌, inl, inr, String, Bool, Option, none, some, List, [], ◌∷◌, ◌==◌, ◌=ₛ◌,
  if◌then◌else◌, Bool-cases,
}
use immich_go_backend.Db.{after, SharedLink, Db, Outcome, ok, err}
use immich_go_backend.Db.Assets.{find, update_where}
use immich_go_backend.Db.Links.{
  has_link_id, get_shared_link_row, get_shared_link_asset_rows, LinkUpdate, coalesce_null,
  write_link, update_found, update_shared_link_row,
}
use immich_go_backend.Db.Triples.{
  Post-after, Post, Triple, row-Post, bind-Triple, wrap-Triple, need-Triple, check-Triple,
  pre-Triple, return-Triple, statement-Triple,
}
use immich_go_backend.SharedLinks.{
  BcryptLib, UpdateRequest, or_none, assets_or_none, with_count, owned_link, hash_password,
  new_password, update_shared_link,
}

-- The link with the id has a password, and it has a time of expiry.
pub record HasPassword (id : ℕ) (links : List SharedLink) : Type 0 where
  pub link : SharedLink
  pub found : find (has_link_id id) links ≡ some link
  pub hashed : String
  pub is_set : link.password ≡ some hashed

pub record HasExpiry (id : ℕ) (links : List SharedLink) : Type 0 where
  pub link : SharedLink
  pub found : find (has_link_id id) links ≡ some link
  pub time : ℕ
  pub is_set : link.expires_at ≡ some time

-- COALESCE never gives NULL for a column that has a value.
coalesced :
    {A : Type 0} (new : Option A) (old : A) → (b : A) × (coalesce_null new (some old) ≡ some b)
coalesced none old = (old, refl)
coalesced (some b) old = (b, refl)

-- The row that an id finds after an UPDATE of some row.
find-write :
    (id other : ℕ) (p : LinkUpdate) (xs : List SharedLink) (l : SharedLink)
    → find (has_link_id id) xs ≡ some l
    → find (has_link_id id) (update_where (has_link_id other) (write_link p) xs)
      ≡ some (if l.id == other then write_link p l else l)
find-write id other p [] l e = cc
find-write id other p (x ∷ xs) l e = elim (Bool-cases (x.id == id)) [
  | inl q ↦
      let same : some x ≡ some l = rw q at e in
      let x≡l : x ≡ l = cc in
      elim (Bool-cases (x.id == other)) [
        | inl r ↦ rw (← x≡l, r, q) refl
        | inr r ↦ rw (← x≡l, r, q) refl
      ]
  | inr q ↦
      let later : find (has_link_id id) xs ≡ some l = rw q at e in
      elim (Bool-cases (x.id == other)) [
        | inl r ↦ rw (r, q) (find-write id other p xs l later)
        | inr r ↦ rw (r, q) (find-write id other p xs l later)
      ]
]

module _ (P : List SharedLink → Type 0)
    (kept : (other : ℕ) (p : LinkUpdate) (xs : List SharedLink)
      → P xs
      → P (update_where (has_link_id other) (write_link p) xs)) where
  abbrev K : Db → Type 0
  K db = P db.links

  free : (db : Db) (later : List Bool) → K db → K (record db { outages = later })
  free db later h = h

  or_none-Post :
      {A : Type 0} (o : Outcome (List A))
      → Post (λ r. K) K o
      → Post (λ (r : List A). K) K (or_none o)
  or_none-Post (ok r db) h = h
  or_none-Post (err e db) h = h

  count-Triple : (l : SharedLink) → Triple K (with_count l) (λ r. K) K
  unfolding with_count assets_or_none get_shared_link_asset_rows
  count-Triple l =
      bind-Triple
        (record {
          run = λ db k. or_none-Post (get_shared_link_asset_rows l.id db) ((rows l).run db k);
        })
        λ rows. return-Triple _
    where
      rows : (l : SharedLink) → Triple K (get_shared_link_asset_rows l.id) (λ r. K) K
      rows l = statement-Triple free (λ db k. k) (record { run = λ db k. k })

  owned-Triple : (user id : ℕ) → Triple K (owned_link user id) (λ l. K) K
  unfolding owned_link get_shared_link_row
  owned-Triple user id =
      bind-Triple
        (wrap-Triple _ (
          statement-Triple free (λ db k. k)
            (record {
              run = λ db k. row-Post _ _ db (find (has_link_id id) db.links) (λ l e. k) k;
            })))
        λ l.
          bind-Triple (check-Triple _ _ (λ db k. k))
            λ done. pre-Triple (λ db p. p.0) (return-Triple l)

  hash-Triple : (b : BcryptLib) (password : String) → Triple K (hash_password b password) (λ h. K) K
  unfolding hash_password
  hash-Triple b password = elim (Bool-cases (password =ₛ "")) [
    | inl e ↦ rw e (return-Triple none)
    | inr e ↦ rw e (
        bind-Triple (need-Triple _ (b.hash password) (λ db k. k))
          λ h. pre-Triple (λ db p. p.0) (return-Triple (some h)))
  ]

  password-Triple :
      (b : BcryptLib) (o existing : Option String) → Triple K (new_password b o existing) (λ h. K) K
  unfolding new_password
  password-Triple b none existing = return-Triple existing
  password-Triple b (some p) existing = hash-Triple b p

  found-Post :
      (id : ℕ) (p : LinkUpdate) (o : Option SharedLink) (db : Db)
      → K db
      → Post (λ (l : SharedLink). K) K (update_found id p o db)
  found-Post id p none db k = k
  found-Post id p (some l) db k = kept id p db.links k

  row-Triple : (id : ℕ) (p : LinkUpdate) → Triple K (update_shared_link_row id p) (λ l. K) K
  unfolding update_shared_link_row
  row-Triple id p =
      statement-Triple free (λ db k. k)
        (record { run = λ db k. found-Post id p (find (has_link_id id) db.links) db k })

  update-Triple :
      (b : BcryptLib) (user id : ℕ) (req : UpdateRequest)
      → Triple K (update_shared_link b user id req) (λ r. K) K
  unfolding update_shared_link
  update-Triple b user id req = bind-Triple (owned-Triple user id) λ l.
      bind-Triple (password-Triple b req.password l.password)
        λ password. bind-Triple (wrap-Triple _ (row-Triple id _)) λ updated. count-Triple updated

  update-keeps :
      (b : BcryptLib) (user id : ℕ) (req : UpdateRequest) (db : Db)
      → P db.links
      → P (after (update_shared_link b user id req db)).links
  update-keeps b user id req db h = Post-after K _ ((update-Triple b user id req).run db h)

HasPassword-write :
    (id other : ℕ) (p : LinkUpdate) (xs : List SharedLink)
    → HasPassword id xs
    → HasPassword id (update_where (has_link_id other) (write_link p) xs)
HasPassword-write id other p xs h = elim (Bool-cases (h.link.id == other)) [
  | inl q ↦
      let (hashed, e) = coalesced p.password h.hashed in
      record {
        link = write_link p h.link;
        found = find-write id other p xs h.link h.found ∙ rw q refl;
        hashed = hashed;
        is_set = rw h.is_set e;
      }
  | inr q ↦ record {
    link = h.link;
    found = find-write id other p xs h.link h.found ∙ rw q refl;
    hashed = h.hashed;
    is_set = h.is_set;
  }
]

HasExpiry-write :
    (id other : ℕ) (p : LinkUpdate) (xs : List SharedLink)
    → HasExpiry id xs
    → HasExpiry id (update_where (has_link_id other) (write_link p) xs)
HasExpiry-write id other p xs h = elim (Bool-cases (h.link.id == other)) [
  | inl q ↦
      let (time, e) = coalesced p.expires_at h.time in
      record {
        link = write_link p h.link;
        found = find-write id other p xs h.link h.found ∙ rw q refl;
        time = time;
        is_set = rw h.is_set e;
      }
  | inr q ↦ record {
    link = h.link;
    found = find-write id other p xs h.link h.found ∙ rw q refl;
    time = h.time;
    is_set = h.is_set;
  }
]

-- No request to UpdateSharedLink takes the password from a link, not even one with an empty password:
-- whoever sends it and whatever fails, a link that has a password has one afterwards.
pub HasPassword-update_shared_link :
    (b : BcryptLib) (user id target : ℕ) (req : UpdateRequest) (db : Db)
    → HasPassword target db.links
    → HasPassword target (after (update_shared_link b user id req db)).links
HasPassword-update_shared_link b user id target =
    update-keeps (HasPassword target) (HasPassword-write target) b user id

-- No request to UpdateSharedLink takes the time of expiry from a link, not even one that changes it
-- to none: whoever sends it and whatever fails, a link that expires does so afterwards.
pub HasExpiry-update_shared_link :
    (b : BcryptLib) (user id target : ℕ) (req : UpdateRequest) (db : Db)
    → HasExpiry target db.links
    → HasExpiry target (after (update_shared_link b user id req db)).links
HasExpiry-update_shared_link b user id target =
    update-keeps (HasExpiry target) (HasExpiry-write target) b user id
