-- ===== src/SharedLinks/Calm.antt =====
-- GetSharedLinkAssets of internal/sharedlinks/service.go where no statement fails.
use immich_go_backend.Base.{
  ℕ, ◌≡◌, refl, inl, inr, String, true, false, not, Option, none, some, [], arith, ◌=ₛ◌, select,
  Bool-cases,
}
use immich_go_backend.Db.{SharedLink, Db, Error, failure, Outcome, ok, err, wrap, check, statement}
use immich_go_backend.Db.Assets.{find, sort_by}
use immich_go_backend.Db.Links.{
  has_link_key, is_attached, get_shared_link_row_by_key, get_shared_link_asset_rows,
}
use immich_go_backend.SharedLinks.{
  BcryptLib, convert_shared_link, assets_or_none, with_count, is_expired, check_password,
  get_shared_link_by_key, get_shared_link_assets,
}
use immich_go_backend.SharedLinks.Access.{opens, fits_password}

-- An error, and nothing has changed.
abbrev pub Refuses : {A : Type 0} → Db → Outcome A → Type 0
Refuses db (ok a final) = ⊥
Refuses db (err e final) = final ≡ db

module _ (b : BcryptLib) (password : String) (db : Db) where
  check_password_passes :
      (o : Option String)
      → fits_password b o password ≡ true
      → check_password b o password db ≡ ok tt db
  unfolding check_password check
  check_password_passes none h = refl
  check_password_passes (some hashed) h = elim (Bool-cases (hashed =ₛ "")) [
    | inl e ↦ rw e refl
    | inr e ↦
        let given : not (password =ₛ "") ≡ true = ground arith in
        let right : b.matches hashed password ≡ true = ground arith in rw (e, given, right) refl
  ]

  check_password_fails :
      (o : Option String)
      → fits_password b o password ≡ false
      → (e : Error) × (check_password b o password db ≡ err e db)
  unfolding check_password check
  check_password_fails none h = cc
  check_password_fails (some hashed) h = elim (Bool-cases (hashed =ₛ "")) [
    | inl e ↦ absurd (ground arith)
    | inr e ↦ elim (Bool-cases (not (password =ₛ ""))) [
      | inl given ↦
          let wrong : b.matches hashed password ≡ false = ground arith in
          (failure "invalid password", rw (e, given, wrong) refl)
      | inr blank ↦ (failure "password required", rw (e, blank) refl)
    ]
  ]

module _ (b : BcryptLib) (now : ℕ) (key password : String) (link : SharedLink) (db : Db)
    (found : find (has_link_key key) db.links ≡ some link) (calm : db.outages ≡ []) where
  -- Without outages a caller whom the link lets in gets all of its attached assets that are not
  -- deleted. The key is that of a link.
  pub get_shared_link_assets_opened :
      opens b now password link ≡ true
      → get_shared_link_assets b now key password db
        ≡ ok
            (sort_by (λ a. a.local_date_time) (select (is_attached db link.id) db.assets))
            (record db { outages = [] })
  unfolding get_shared_link_assets get_shared_link_by_key get_shared_link_row_by_key statement wrap
      check with_count assets_or_none get_shared_link_asset_rows convert_shared_link
  get_shared_link_assets_opened opened =
      let alive : not (is_expired link.expires_at now) ≡ true = ground arith in
      let fits : fits_password b link.password password ≡ true = ground arith in
      rw
        (
          calm,
          found,
          alive,
          check_password_passes b password (record db { outages = [] }) link.password fits,
        )
        refl

  -- Without outages no other caller gets anything: an expired link, a missing and a wrong password are
  -- refused, and nothing changes. The key is that of a link.
  pub get_shared_link_assets_refused :
      opens b now password link ≡ false
      → Refuses (record db { outages = [] }) (get_shared_link_assets b now key password db)
  unfolding get_shared_link_assets get_shared_link_by_key get_shared_link_row_by_key statement wrap
      check
  get_shared_link_assets_refused closed = elim (Bool-cases (not (is_expired link.expires_at now))) [
    | inl alive ↦
        let misfit : fits_password b link.password password ≡ false = ground arith in
        let (e, refused) =
          check_password_fails b password (record db { outages = [] }) link.password misfit in
        rw (calm, found, alive, refused) refl
    | inr expired ↦ rw (calm, found, expired) refl
  ]
