-- ===== src/Db.antt =====
-- The database behind the services: sqlc/schema.sql and internal/db/sqlc/models.go as tables of
-- rows, with the columns that the services of this library read or write.
--
-- A method of `*sqlc.Queries` is one statement. `outages` says which of the statements to come fail
-- as a whole (connection, context, server); after the list none does. `clock` is the time of a
-- statement. Times are microseconds. A UUID is its 128 bits as a number, and a NULL column is `none`.
pub mod Assets
pub mod Stacks
pub mod Links
pub mod Activity
pub mod Workflows
pub mod Albums
pub mod Owned
pub mod Triples
pub mod Rows
use immich_go_backend.Base.{
  ◌≡◌, ℕ, String, Bool, true, false, Option, none, some, List, [], ◌∷◌, ◌==◌, leb, if◌then◌else◌,
}

pub data AssetStatus : Type 0 where
  active trashed deleted : AssetStatus

pub record Asset : Type 0 where
  pub id : ℕ
  pub owner_id : ℕ
  pub device_id : String
  pub original_path : String
  pub kind : String
  pub updated_at : ℕ
  pub created_at : ℕ
  pub file_created_at : Option ℕ
  pub original_file_name : String
  pub deleted_at : Option ℕ
  pub local_date_time : ℕ
  pub stack_id : Option ℕ
  pub status : AssetStatus

pub record AssetStack : Type 0 where
  pub id : ℕ
  pub primary_asset_id : ℕ
  pub owner_id : ℕ

pub record Album : Type 0 where
  pub id : ℕ
  pub owner_id : ℕ
  pub deleted_at : Option ℕ

pub record AlbumAsset : Type 0 where
  pub album_id : ℕ
  pub asset_id : ℕ
  pub created_at : ℕ

pub record SharedLink : Type 0 where
  pub id : ℕ
  pub description : Option String
  pub user_id : ℕ
  pub key : String
  pub kind : String
  pub created_at : ℕ
  pub expires_at : Option ℕ
  pub allow_upload : Bool
  pub album_id : Option ℕ
  pub allow_download : Bool
  pub show_exif : Bool
  pub password : Option String

pub record Workflow : Type 0 where
  pub id : ℕ
  pub owner_id : ℕ
  pub name : String
  pub description : String
  pub enabled : Bool
  pub status : String
  pub trigger : String
  pub actions : String
  pub execution_count : ℕ
  pub last_execution_at : Option ℕ
  pub created_at : ℕ
  pub updated_at : ℕ

pub record WorkflowExecution : Type 0 where
  pub id : ℕ
  pub workflow_id : ℕ
  pub status : String
  pub started_at : ℕ
  pub completed_at : Option ℕ
  pub error_message : Option String
  pub trigger_data : Option String
  pub action_results : Option String

-- Of `users` only the ids, to which other tables refer. `album_users` has the album and the user of
-- each row, `link_assets` the asset and the link, and `exif_sizes` the asset and the size.
pub record Db : Type 0 where
  pub users : List ℕ
  pub albums : List Album
  pub album_assets : List AlbumAsset
  pub album_users : List (ℕ × ℕ)
  pub exif_sizes : List (ℕ × Option ℕ)
  pub assets : List Asset
  pub stacks : List AssetStack
  pub links : List SharedLink
  pub link_assets : List (ℕ × ℕ)
  pub workflows : List Workflow
  pub executions : List WorkflowExecution
  pub clock : ℕ
  pub outages : List Bool

-- The gRPC status codes that the servers answer with.
pub data Code : Type 0 where
  unauthenticated invalid_argument not_found permission_denied internal : Code

-- Why a call failed: a row that is not there, a constraint, an argument, an outage, the message with which a
-- service wraps it, or the status with which a server does.
pub data Error : Type 0 where
  no_rows conflict refused unavailable : Error
  failure : String → Error
  status : Code → String → Error
  invalid_argument_error : String → Error

-- Statements commit one by one: a failure keeps what was written before it.
pub data Outcome (A : Type 0) : Type 0 where
  ok : A → Db → Outcome A
  err : Error → Db → Outcome A

-- The database after a call, whether it failed or not.
abbrev pub after : {A : Type 0} → Outcome A → Db
after (ok a db) = db
after (err e db) = db

abbrev pub M : Type 0 → Type 0
M A = Db → Outcome A

abbrev pub continue : {A B : Type 0} → Outcome A → (A → M B) → Outcome B
continue (ok a db) f = f a db
continue (err e db) f = err e db

infixl 5 ◌>>=◌ ◌>>◌
abbrev pub ◌>>=◌ : {A B : Type 0} → M A → (A → M B) → M B
◌>>=◌ m f db = continue (m db) f

abbrev pub ◌>>◌ : {B : Type 0} → M (Unit {0}) → M B → M B
m >> k = m >>= λ u. k

abbrev pub return : {A : Type 0} → A → M A
return a db = ok a db

abbrev pub fail : {A : Type 0} → String → M A
fail message db = err (failure message) db

abbrev pub rewrap : {A : Type 0} → String → Outcome A → Outcome A
rewrap message (ok a db) = ok a db
rewrap message (err e db) = err (failure message) db

abbrev pub answer : {A : Type 0} → Code → String → Outcome A → Outcome A
answer code message (ok a db) = ok a db
answer code message (err e db) = err (status code message) db

-- `if err != nil { return status.Errorf(code, "message: %v", err) }`
unfoldable pub reply : {A : Type 0} → Code → String → M A → M A
reply code message m db = answer code message (m db)

-- `if err != nil { return fmt.Errorf("message: %w", err) }`
unfoldable pub wrap : {A : Type 0} → String → M A → M A
wrap message m db = rewrap message (m db)

abbrev pub settle : Outcome (Unit {0}) → Outcome Bool
settle (ok a db) = ok true db
settle (err e db) = ok false db

-- Whether a statement succeeded, where the code goes on in both cases.
unfoldable pub succeeds : M (Unit {0}) → M Bool
succeeds m db = settle (m db)

-- A parse that may fail.
unfoldable pub need : {A : Type 0} → String → Option A → M A
need message none = fail message
need message (some a) = return a

-- `if !test { return fmt.Errorf("message") }`
unfoldable pub check : Bool → String → M (Unit {0})
check true message = return tt
check false message = fail message

abbrev pub attempt : {A : Type 0} → List Bool → M A → M A
attempt [] f db = f (record db { outages = [] })
attempt (true ∷ later) f db = err unavailable (record db { outages = later })
attempt (false ∷ later) f db = f (record db { outages = later })

-- One statement, which the next outage may prevent.
unfoldable pub statement : {A : Type 0} → M A → M A
statement f db = attempt db.outages f db

-- `github.com/google/uuid`: `Parse`, and `String` of a UUID, which `Parse` reads back.
pub record UuidLib : Type 0 where
  pub parse : String → Option ℕ
  pub format : ℕ → String

pub record IsUuidLib (u : UuidLib) : Type 0 where
  pub parse-format : (id : ℕ) → u.parse (u.format id) ≡ some id
