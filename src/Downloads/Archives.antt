-- ===== src/Downloads/Archives.antt =====
-- The names of the entries of an archive that internal/download/service.go writes.
use immich_go_backend.Base.{
  ℕ, ◌+◌, ◌≡◌, refl, sym, subst, String, Bool, true, false, ◌||◌, Option, some, List, [], ◌∷◌, ◌=ₛ◌,
  =ₛ_refl, =ₛ_ne, length, map,
}
use immich_go_backend.Db.{Asset, Db, Outcome, ok, err, continue, return, wrap, rewrap}
use immich_go_backend.Db.Triples.{Post}
use immich_go_backend.Downloads.{
  DownloadLib, DownloadRequest, Entry, generate_archive_path, asset_storage_path, add_entry,
  archive_all, resolve_download_assets, download_archive,
}
use immich_go_backend.Downloads.Names.{is_used, IsDownloadLib, unique_name_ends, unique_name-fresh}

abbrev pub names_of : List Entry → List String
names_of = map (λ (e : Entry). e.name)

abbrev pub Distinct : List String → Type 0
Distinct [] = Unit
Distinct (s ∷ rest) = (is_used rest s ≡ false) × Distinct rest

-- None of the names is in use.
abbrev Apart : List String → List String → Type 0
Apart used [] = Unit
Apart used (s ∷ rest) = (is_used used s ≡ false) × Apart used rest

-- The archive is there, its names are distinct, and none was in use.
pub record Archive (used : List String) (o : Option (List Entry)) : Type 0 where
  pub entries : List Entry
  pub ended : o ≡ some entries
  pub distinct : Distinct (names_of entries)
  pub apart : Apart used (names_of entries)

Apart-tail :
    (name : String) (used : List String) (xs : List String) → Apart (name ∷ used) xs → Apart used xs
Apart-tail name used [] h = tt
Apart-tail name used (x ∷ xs) (e, h) = (later (name =ₛ x) _ e, Apart-tail name used xs h)
  where
    later : (a b : Bool) → (a || b) ≡ false → b ≡ false
    later true b q = absurd cc
    later false b q = q

unused_head :
    (name : String) (used : List String) (xs : List String)
    → Apart (name ∷ used) xs
    → is_used xs name ≡ false
unused_head name used [] h = refl
unused_head name used (x ∷ xs) (e, h) =
    let miss : (x =ₛ name) ≡ false = =ₛ_ne x name (λ q. contradiction q) in
    rw miss (unused_head name used xs h)
  where
    contradiction : x ≡ name → ⊥
    contradiction q =
        let hit : (name =ₛ x) ≡ true = subst (λ t. (name =ₛ t) ≡ true) (sym q) (=ₛ_refl name) in
        let both : true ≡ false = rw hit at e in absurd cc

module _ (lib : DownloadLib) (law : IsDownloadLib lib) where
  add :
      (takes : Bool) (e : Entry) (used : List String) (rest : Option (List Entry))
      → is_used used e.name ≡ false
      → Archive (e.name ∷ used) rest
      → Archive used (add_entry lib takes e rest)
  add false e used rest fresh a = rw a.ended (record {
    entries = a.entries;
    ended = refl;
    distinct = a.distinct;
    apart = Apart-tail e.name used (names_of a.entries) a.apart;
  })
  add true e used rest fresh a = rw a.ended (record {
    entries = e ∷ a.entries;
    ended = refl;
    distinct = (unused_head e.name used (names_of a.entries) a.apart, a.distinct);
    apart = (fresh, Apart-tail e.name used (names_of a.entries) a.apart);
  })

  archive_all-Archive :
      (assets : List Asset) (used : List String) → Archive used (archive_all lib used assets)
  unfolding archive_all
  archive_all-Archive [] used = record { entries = []; ended = refl; distinct = tt; apart = tt }
  archive_all-Archive (a ∷ assets) used =
      let (name, found) = unique_name_ends lib law used (generate_archive_path lib a) in
      let fresh =
        unique_name-fresh lib (length used + 2) used (generate_archive_path lib a) 1
          (generate_archive_path lib a) name found in
      rw found (
        add (lib.takes name) (record { name = name; content = lib.read (asset_storage_path lib a) })
          used _ fresh (archive_all-Archive assets (name ∷ used)))

-- DownloadArchive ends, and gives the entries of its archive different names: for every request, and
-- whatever statements, files and entries fail. Different counters have different digits.
pub download_archive-Archive :
    (lib : DownloadLib) (user : ℕ) (req : DownloadRequest) (db : Db)
    → IsDownloadLib lib
    → Post (λ r final. Archive [] r) (λ final. Unit) (download_archive lib user req db)
unfolding download_archive wrap
download_archive-Archive lib user req db law = named (resolve_download_assets lib user req db)
  where
    named :
        (o : Outcome (List Asset))
        → Post
            (λ r final. Archive [] r)
            (λ final. Unit)
            (continue
              (rewrap "failed to get download assets" o)
              (λ assets. return (archive_all lib [] assets)))
    named (ok assets final) = archive_all-Archive lib law assets []
    named (err e final) = tt
